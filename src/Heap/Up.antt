-- ===== src/Heap/Up.antt =====
-- min_heap_shift_up_ restores the heap order.
use tcp_congestion_mininet.Common.{
  ℕ, zero, suc, ◌+◌, ◌≤◌, ◌<◌, ◌≡◌, ◌≢◌, refl, some, arith, ◌∙◌, Bool-cases, ltb-lt, suc-eqb-zero,
  inl, inr,
}
use tcp_congestion_mininet.Heap.{
  MinHeap, parent, place, shift_up_loop, min_heap_shift_up, min_heap_elem_greater,
}
use tcp_congestion_mininet.Heap.Order.{par, parent_lem, count-swap, Sifted}

module _ (key : ℕ → ℕ) where
  -- Slot `hole` is to be filled with `e`, which is no larger than what is below.
  pub record UpInv (s : MinHeap) (hole e : ℕ) : Type 0 where
    pub inside : hole < s.n
    pub small : s.n < 0x80000000
    pub edges :
        (c : ℕ) → 0 < c → c < s.n → c ≢ hole → par c ≢ hole → key (s.p (par c)) ≤ key (s.p c)
    pub below : (c : ℕ) → 0 < c → c < s.n → par c ≡ hole → key e ≤ key (s.p c)
    pub bridged :
        (c : ℕ) → 0 < c → c < s.n → par c ≡ hole → 0 < hole → key (s.p (par hole)) ≤ key (s.p c)
    pub named : (i : ℕ) → i < s.n → i ≢ hole → s.min_heap_idx (s.p i) ≡ some i
    pub absent : (i : ℕ) → i < s.n → i ≢ hole → s.p i ≢ e

  -- One round of the loop: the parent of the hole moves down into it.
  module _ (s : MinHeap) (hole e : ℕ) (v : UpInv s hole e) (pos : 0 < hole) where
    abbrev moved : MinHeap
    moved = place hole (s.p (par hole)) s

    rise-edges :
        (c : ℕ)
        → 0 < c
        → c < s.n
        → c ≢ par hole
        → par c ≢ par hole
        → key (moved.p (par c)) ≤ key (moved.p c)
    unfolding place
    rise-edges c a b d f = ground (arith, v.edges c, v.bridged c, v.inside)

    rise-below :
        key e < key (s.p (par hole))
        → (c : ℕ) → 0 < c
        → c < s.n
        → par c ≡ par hole
        → key e ≤ key (moved.p c)
    unfolding place
    rise-below h c a b d = ground (arith, v.edges c, v.below c, v.inside)

    rise-bridged :
        (c : ℕ)
        → 0 < c
        → c < s.n
        → par c ≡ par hole
        → 0 < par hole
        → key (moved.p (par (par hole))) ≤ key (moved.p c)
    unfolding place
    rise-bridged c a b d f = ground (arith, v.edges c, v.edges (par hole), v.inside)

    rise-named : (i : ℕ) → i < s.n → i ≢ par hole → moved.min_heap_idx (moved.p i) ≡ some i
    unfolding place
    rise-named i a b = ground (arith, v.named i, v.named (par hole), v.inside)

    rise-UpInv : key e < key (s.p (par hole)) → UpInv moved (par hole) e
    unfolding place
    rise-UpInv h = record {
      inside = omega (arith, v.inside);
      small = v.small;
      edges = rise-edges;
      below = rise-below h;
      bridged = rise-bridged;
      named = rise-named;
      absent = λ i a b. ground (arith, v.absent i, v.absent (par hole), v.inside);
    }

  settle :
      (s : MinHeap) (hole e : ℕ)
      → UpInv s hole e
      → (0 < hole → key (s.p (par hole)) ≤ key e)
      → Sifted key s hole e (place hole e s)
  unfolding place
  settle s hole e v h = record {
    order = λ c a b. ground (arith, v.edges c, v.below c, h, v.inside);
    indexed = λ i a. ground (arith, v.named i, v.absent i, v.inside);
    same_n = refl;
    same_a = refl;
    same_freed = λ x. refl;
    bag = λ x. refl;
  }

  rise-Sifted :
      (s : MinHeap) (hole e : ℕ) (v : UpInv s hole e) (pos : 0 < hole) (r : MinHeap)
      → Sifted key (place hole (s.p (par hole)) s) (par hole) e r
      → Sifted key s hole e r
  unfolding place
  rise-Sifted s hole e v pos r t = record {
    order = t.order;
    indexed = t.indexed;
    same_n = t.same_n;
    same_a = t.same_a;
    same_freed = t.same_freed;
    bag = λ x.
        t.bag x
        ∙ count-swap s.n hole (par hole) s.p e x v.inside (omega (arith, v.inside)) (omega arith);
  }

  pub shift_up_loop-Sifted :
      (k hole e : ℕ) (s : MinHeap)
      → hole < k
      → UpInv s hole e
      → Sifted key s hole e (shift_up_loop key k hole e s)
  unfolding shift_up_loop
  shift_up_loop-Sifted zero hole e s h v = absurd (omega arith)
  shift_up_loop-Sifted (suc k) zero e s h v = settle s 0 e v (λ pos. absurd (omega arith))
  shift_up_loop-Sifted (suc k) (suc i) e s h v =
      let hole = suc i in
      let at : parent hole ≡ par hole =
        parent_lem hole (omega arith) (omega (arith, v.inside, v.small)) in
      elim (Bool-cases (min_heap_elem_greater key (s.p (par hole)) e)) [
        | inl up ↦
            let below = ltb-lt (key e) (key (s.p (par hole))) up in
            rw (at, up, suc-eqb-zero i)
              (rise-Sifted s hole e v (omega arith) _ (
                shift_up_loop-Sifted k (par hole) e (place hole (s.p (par hole)) s) (omega arith)
                  (rise-UpInv s hole e v (omega arith) below)))
        | inr stop ↦ rw (at, stop, suc-eqb-zero i) (settle s hole e v (λ pos. ground arith))
      ]

  -- Filling a hole from below sorts the element in.
  pub min_heap_shift_up-Sifted :
      (hole e : ℕ) (s : MinHeap)
      → UpInv s hole e
      → Sifted key s hole e (min_heap_shift_up key hole e s)
  unfolding min_heap_shift_up
  min_heap_shift_up-Sifted hole e s v = shift_up_loop-Sifted (hole + 1) hole e s (omega arith) v
