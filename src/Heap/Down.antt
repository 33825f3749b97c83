-- ===== src/Heap/Down.antt =====
-- min_heap_shift_down_ restores the heap order.
use tcp_congestion_mininet.Common.{
  ℕ, zero, suc, ◌+◌, ◌-◌, ◌*◌, ◌%◌, ◌≤◌, ◌<◌, ◌≡◌, ◌≢◌, refl, some, arith, ◌∙◌, Bool-cases, ltb-lt,
  inl, inr, leb, ◌⊎◌,
}
use tcp_congestion_mininet.Common.Words.{u32_mod}
use tcp_congestion_mininet.Heap.{
  MinHeap, place, min_child_of, shift_down_loop, min_heap_shift_down, min_heap_elem_greater,
}
use tcp_congestion_mininet.Heap.Order.{par, count-swap, Sifted}

module _ (key : ℕ → ℕ) where
  -- Slot `hole` is to be filled with `e`, which is no smaller than what is above.
  pub record DownInv (s : MinHeap) (hole e : ℕ) : Type 0 where
    pub inside : hole < s.n
    pub small : s.n < 0x80000000
    pub edges :
        (c : ℕ) → 0 < c → c < s.n → c ≢ hole → par c ≢ hole → key (s.p (par c)) ≤ key (s.p c)
    pub above : 0 < hole → key (s.p (par hole)) ≤ key e
    pub bridged :
        (c : ℕ) → 0 < c → c < s.n → par c ≡ hole → 0 < hole → key (s.p (par hole)) ≤ key (s.p c)
    pub named : (i : ℕ) → i < s.n → i ≢ hole → s.min_heap_idx (s.p i) ≡ some i
    pub absent : (i : ℕ) → i < s.n → i ≢ hole → s.p i ≢ e

  -- `m` is the child of `hole` with the smaller key.
  pub record IsSmallerChild (s : MinHeap) (hole m : ℕ) : Type 0 where
    pub inside : m < s.n
    pub child : (m ≡ 2 * hole + 1) ⊎ (m ≡ 2 * hole + 2)
    pub least : (c : ℕ) → 0 < c → c < s.n → par c ≡ hole → key (s.p m) ≤ key (s.p c)

  pub min_child_of-IsSmallerChild :
      (s : MinHeap) (hole : ℕ)
      → s.n < 0x80000000
      → 2 * hole + 2 ≤ s.n
      → IsSmallerChild s hole (min_child_of key (2 * hole + 2) s)
  unfolding min_child_of
  min_child_of-IsSmallerChild s hole b h = record {
    inside = ground arith;
    child = ground arith;
    least = λ c p q r. ground arith;
  }

  -- One round of the loop: the child `m` moves up into the hole.
  module _ (s : MinHeap) (hole e m : ℕ) (v : DownInv s hole e) (c : IsSmallerChild s hole m)
      (below : key (s.p m) < key e) where
    abbrev sunk : MinHeap
    sunk = place hole (s.p m) s

    sink-edges :
        (i : ℕ) → 0 < i → i < s.n → i ≢ m → par i ≢ m → key (sunk.p (par i)) ≤ key (sunk.p i)
    unfolding place
    sink-edges i a b d f =
        ground (arith, v.edges i, v.bridged m, c.least i, c.inside, c.child, v.inside)

    sink-DownInv : DownInv sunk m e
    unfolding place
    sink-DownInv = record {
      inside = c.inside;
      small = v.small;
      edges = sink-edges;
      above = λ pos. ground (arith, c.child);
      bridged = λ i a b d pos. ground (arith, v.edges i, c.child, c.inside);
      named = λ i a b. ground (arith, v.named i, v.named m, c.inside, c.child, v.inside);
      absent = λ i a b. ground (arith, v.absent i, v.absent m, c.inside, c.child, v.inside);
    }

    sink-Sifted : (r : MinHeap) → Sifted key sunk m e r → Sifted key s hole e r
    unfolding place
    sink-Sifted r t = record {
      order = t.order;
      indexed = t.indexed;
      same_n = t.same_n;
      same_a = t.same_a;
      same_freed = t.same_freed;
      bag = λ x. t.bag x ∙ count-swap s.n hole m s.p e x v.inside c.inside (omega (arith, c.child));
    }

  come_to_rest :
      (s : MinHeap) (hole e : ℕ)
      → DownInv s hole e
      → ((c : ℕ) → 0 < c → c < s.n → par c ≡ hole → key e ≤ key (s.p c))
      → Sifted key s hole e (place hole e s)
  unfolding place
  come_to_rest s hole e v h = record {
    order = λ c a b. ground (arith, v.edges c, v.above, h c, v.inside);
    indexed = λ i a. ground (arith, v.named i, v.absent i, v.inside);
    same_n = refl;
    same_a = refl;
    same_freed = λ x. refl;
    bag = λ x. refl;
  }

  pub shift_down_loop-Sifted :
      (k hole e : ℕ) (s : MinHeap)
      → s.n - hole < k
      → DownInv s hole e
      → Sifted key s hole e (shift_down_loop key k hole e s)
  unfolding shift_down_loop
  shift_down_loop-Sifted zero hole e s h v = absurd (omega arith)
  shift_down_loop-Sifted (suc k) hole e s h v =
      let right = 2 * (hole + 1) % u32_mod in
      let at : right ≡ 2 * hole + 2 = omega (arith, v.inside, v.small) in
      let m = min_child_of key (2 * hole + 2) s in
      elim (Bool-cases (leb (2 * hole + 2) s.n)) [
        | inl more ↦
            let c = min_child_of-IsSmallerChild s hole v.small (ground arith) in
            elim (Bool-cases (min_heap_elem_greater key e (s.p m))) [
              | inl down ↦
                  let below = ltb-lt (key (s.p m)) (key e) down in
                  rw (at, more, down)
                    (sink-Sifted s hole e m v c below _ (
                      shift_down_loop-Sifted k m e (place hole (s.p m) s)
                        (unfold place in omega (arith, c.child, c.inside))
                        (sink-DownInv s hole e m v c below)))
              | inr stop ↦
                  rw (at, more, stop)
                    (come_to_rest s hole e v (λ i a b d. ground (arith, c.least i)))
            ]
        | inr none_left ↦
            rw (at, none_left) (come_to_rest s hole e v (λ i a b d. absurd (ground arith)))
      ]

  -- Filling a hole from above sorts the element in.
  pub min_heap_shift_down-Sifted :
      (hole e : ℕ) (s : MinHeap)
      → DownInv s hole e
      → Sifted key s hole e (min_heap_shift_down key hole e s)
  unfolding min_heap_shift_down
  min_heap_shift_down-Sifted hole e s v = shift_down_loop-Sifted (s.n + 1) hole e s (omega arith) v
