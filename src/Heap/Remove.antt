-- ===== src/Heap/Remove.antt =====
-- min_heap_pop and min_heap_erase on a well-formed heap.
use tcp_congestion_mininet.Common.{
  ℕ, suc, ◌-◌, ◌≤◌, ◌<◌, ◌≡◌, ◌≢◌, refl, true, none, some, arith, update, ◌∙◌, Bool-cases, inl, inr,
  ltb, ◌&&◌, ◌⊎◌, sym,
}
use tcp_congestion_mininet.Heap.{
  MinHeap, set_idx, place, shift_down_loop, min_heap_shift_down, min_heap_elem_greater, pop_top,
  min_heap_pop, erase_at, min_heap_erase,
}
use tcp_congestion_mininet.Heap.Order.{
  par, count-update, count-suc, count_congr, count_absent, count_here, count_somewhere, count_zero,
  IsIndexed-distinct, Sifted, IsValid, Removed, root_least,
}
use tcp_congestion_mininet.Heap.Up.{UpInv, min_heap_shift_up-Sifted}
use native.Mathlib.Decide.{ℕ_discrete}
use tcp_congestion_mininet.Heap.Down.{DownInv, min_heap_shift_down-Sifted}

module _ (key : ℕ → ℕ) where
  -- The element of slot `i` taken out, with the last one `s.p m` sorted in from there.
  module _ (s : MinHeap) (v : IsValid key s) (m : ℕ) (size : suc m ≡ s.n) where
    abbrev shrunk : MinHeap
    shrunk = record s { n = m }

    take_out :
        (i : ℕ) (r : MinHeap)
        → i < m
        → Sifted key shrunk i (s.p m) r
        → Removed key s (s.p i) (set_idx (s.p i) none r)
    unfolding set_idx
    take_out i r h d = record {
      valid = record {
        order = d.order;
        indexed = λ j p. ground (arith, d.indexed j, gone j (omega (arith, d.same_n)));
        room = omega (arith, d.same_n, d.same_a, v.room);
        small = omega (arith, d.same_n, v.small);
      };
      fewer = omega (arith, d.same_n);
      same_freed = d.same_freed;
      bag = λ x.
          rw (d.same_n, d.bag x, ← size)
            (ground (arith, count-suc m s.p x, count-update m i s.p (s.p m) x));
      unnamed = ground arith;
    }
      where
        gone : (j : ℕ) → j < m → r.p j ≢ s.p i
        gone = count_zero m r.p (s.p i) (
            d.bag (s.p i)
            ∙ count_absent m _ (s.p i) (λ j l. ground (
              arith,
              size,
              IsIndexed-distinct s v.indexed j i,
              IsIndexed-distinct s v.indexed m i,
            )))

    take_out_UpInv :
        (i : ℕ) → i < m → 0 < i → key (s.p m) < key (s.p (par i)) → UpInv key shrunk i (s.p m)
    take_out_UpInv i h pos below = record {
      inside = h;
      small = omega (arith, v.small);
      edges = λ c p q r t. v.order c p (omega arith);
      below = λ c p q r. ground (arith, v.order c, v.order i);
      bridged = λ c p q r t. ground (arith, v.order c, v.order i);
      named = λ j p q. v.indexed j (omega arith);
      absent = λ j p q e.
          absurd (omega (arith, IsIndexed-distinct s v.indexed j m (omega arith) (omega arith) e));
    }

    take_out_DownInv :
        (i : ℕ) → i < m → (0 < i → key (s.p (par i)) ≤ key (s.p m)) → DownInv key shrunk i (s.p m)
    take_out_DownInv i h above = record {
      inside = h;
      small = omega (arith, v.small);
      edges = λ c p q r t. v.order c p (omega arith);
      above = above;
      bridged = λ c p q r t. ground (arith, v.order c, v.order i);
      named = λ j p q. v.indexed j (omega arith);
      absent = λ j p q e.
          absurd (omega (arith, IsIndexed-distinct s v.indexed j m (omega arith) (omega arith) e));
    }

    -- The last element itself is taken out: nothing is sorted in.
    take_last : Removed key s (s.p m) (set_idx (s.p m) none (place m (s.p m) shrunk))
    unfolding set_idx place
    take_last = record {
      valid = record {
        order = λ c p q. ground (arith, size, v.order c);
        indexed = λ j p. ground (arith, size, v.indexed j, IsIndexed-distinct s v.indexed j m);
        room = omega (arith, v.room);
        small = omega (arith, v.small);
      };
      fewer = omega arith;
      same_freed = λ x. refl;
      bag = λ x.
          let same = count_congr m (update s.p m (s.p m)) s.p x (λ i l. ground arith) in
          rw (← size) (ground (arith, count-suc m s.p x, same));
      unnamed = ground arith;
    }

  -- With no slot below the hole, sifting down puts the element there.
  shift_down-outside :
      (hole e : ℕ) (s : MinHeap)
      → s.n ≤ hole
      → hole < 0x7fffffff
      → min_heap_shift_down key hole e s ≡ place hole e s
  unfolding min_heap_shift_down shift_down_loop
  shift_down-outside hole e s h b = ground arith

  -- Popping takes out the root.
  pub pop_top-Removed :
      (s : MinHeap) → IsValid key s → 0 < s.n → Removed key s (s.p 0) (pop_top key s)
  unfolding pop_top
  pop_top-Removed s v h = elim (ℕ_discrete s.n 1) [
    | yes e ↦
        let m : s.n - 1 ≡ 0 = omega arith in
        rw (m, shift_down-outside 0 (s.p 0) (record s { n = 0 }) (omega arith) (omega arith))
          (take_last s v 0 (sym e))
    | no e ↦ take_out s v (s.n - 1) (omega arith) 0 _ (omega arith) (
        min_heap_shift_down-Sifted key 0 (s.p (s.n - 1)) _ (
          take_out_DownInv s v (s.n - 1) (omega arith) 0 (omega arith)
            (λ pos. absurd (omega arith))))
  ]

  pub min_heap_pop-state : (s : MinHeap) → 0 < s.n → (min_heap_pop key s).0 ≡ pop_top key s
  unfolding min_heap_pop
  min_heap_pop-state s h = ground arith

  -- A pop on an empty heap returns no element; on any other valid heap it returns a least one,
  -- takes it out, and keeps the heap valid.
  pub min_heap_pop_cases :
      (s : MinHeap)
      → IsValid key s
      → ((s.n ≡ 0) × (min_heap_pop key s ≡ (s, none)))
        ⊎ ((r : MinHeap) × (min_heap_pop key s ≡ (r, some (s.p 0)))
            × Removed key s (s.p 0) r
            × ((i : ℕ) → i < s.n → key (s.p 0) ≤ key (s.p i)))
  unfolding min_heap_pop
  min_heap_pop_cases s v = elim (ℕ_discrete s.n 0) [
    | yes e ↦ inl (e, ground arith)
    | no e ↦ inr (
      pop_top key s,
      ground arith,
      pop_top-Removed s v (omega arith),
      λ i h. root_least key (suc i) s v.order i (omega arith) h,
    )
  ]

  -- Erasing an element of a valid heap takes out exactly that element and keeps the heap valid.
  pub min_heap_erase-Removed :
      (s : MinHeap) (i : ℕ)
      → IsValid key s
      → i < s.n
      → (r : MinHeap) × (min_heap_erase key (s.p i) s ≡ (r, true)) × Removed key s (s.p i) r
  unfolding min_heap_erase erase_at
  min_heap_erase-Removed s i v h = rw (v.indexed i h, min_heap_erase) (_, refl, erased)
    where
      m : ℕ
      m = s.n - 1

      erase_last :
          (j : ℕ)
          → j ≡ m
          → Removed key s
              (s.p j)
              (set_idx (s.p j) none (min_heap_shift_down key j (s.p m) (record s { n = m })))
      erase_last j e =
          rw
            (
              e,
              shift_down-outside m (s.p m) (record s { n = m }) (omega arith)
                  (omega (arith, v.small)),
            )
            (take_last s v m (omega arith))

      erased : Removed key s (s.p i) (erase_at key i (s.p i) s)
      erased = elim (Bool-cases (ltb 0 i && min_heap_elem_greater key (s.p (par i)) (s.p m))) [
        | inl up ↦ rw up (
            let pos : 0 < i = ground arith in
            let below : key (s.p m) < key (s.p (par i)) = ground arith in
            let inner : i < m = ground (arith, v.order i) in
            take_out s v m (omega arith) i _ inner (
              min_heap_shift_up-Sifted key i (s.p m) _
                (take_out_UpInv s v m (omega arith) i inner pos below)))
        | inr down ↦ rw down (elim (ℕ_discrete i m) [
          | yes e ↦ erase_last i e
          | no e ↦ take_out s v m (omega arith) i _ (omega arith) (
              min_heap_shift_down-Sifted key i (s.p m) _
                (take_out_DownInv s v m (omega arith) i (omega arith) (λ pos. ground arith)))
        ])
      ]

  -- What is left after a removal was there before.
  pub Removed-bound :
      (s : MinHeap) (e : ℕ) (r : MinHeap) (b : ℕ)
      → Removed key s e r
      → ((i : ℕ) → i < s.n → b ≤ key (s.p i))
      → (i : ℕ) → i < r.n
      → b ≤ key (r.p i)
  Removed-bound s e r b d h i l =
      let (j, m, q) =
        count_somewhere s.n s.p (r.p i) (omega (arith, d.bag (r.p i), count_here r.n r.p i l)) in
      rw (← q) (h j m)
