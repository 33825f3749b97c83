-- ===== src/Heap/Outside.antt =====
-- The field min_heap_idx of the elements that are not in the heap.
use tcp_congestion_mininet.Common.{
  ℕ, zero, suc, ◌+◌, ◌-◌, ◌*◌, ◌/◌, ◌%◌, ◌≤◌, ◌<◌, ◌≡◌, ◌≢◌, refl, sym, none, arith, update, Bool,
  Bool-cases, inl, inr, leb, ltb, ◌&&◌, if-elim,
}
use tcp_congestion_mininet.Common.Words.{u32_mod}
use tcp_congestion_mininet.Heap.{
  MinHeap, parent, place, shift_up_loop, min_heap_shift_up, min_child_of, shift_down_loop,
  min_heap_shift_down, set_idx, min_heap_elem_greater, min_heap_push, pop_top, erase_at,
}
use tcp_congestion_mininet.Heap.Order.{par, parent_lem}
use tcp_congestion_mininet.Heap.Push.{min_heap_reserve_cases}
use tcp_congestion_mininet.Heap.Down.{min_child_of-IsSmallerChild}

-- `x` stands in no slot but the hole.
abbrev pub IsOutside : MinHeap → ℕ → ℕ → Type 0
IsOutside s hole x = (i : ℕ) → i < s.n → i ≢ hole → s.p i ≢ x

module _ (key : ℕ → ℕ) where
  shift_up_loop-outside :
      (k hole e x : ℕ) (s : MinHeap)
      → s.n < 0x80000000
      → hole ≤ s.n
      → x ≢ e
      → IsOutside s hole x
      → (shift_up_loop key k hole e s).min_heap_idx x ≡ s.min_heap_idx x
  unfolding shift_up_loop place
  shift_up_loop-outside zero hole e x s b l ne out = refl
  shift_up_loop-outside (suc k) zero e x s b l ne out = ground arith
  shift_up_loop-outside (suc k) (suc i) e x s b l ne out =
      let at : parent (suc i) ≡ par (suc i) = parent_lem (suc i) (omega arith) (omega arith) in
      let above = out (par (suc i)) (omega arith) (λ q. omega (arith, q)) in
      let ih =
        shift_up_loop-outside k (par (suc i)) e x (place (suc i) (s.p (par (suc i))) s) b
          (omega arith) ne (λ j h q. ground (arith, out j, above)) in
      rw at (ground (arith, ih, above))

  shift_down_loop-outside :
      (k hole e x : ℕ) (s : MinHeap)
      → s.n < 0x7fffffff
      → hole ≤ s.n
      → x ≢ e
      → IsOutside s hole x
      → (shift_down_loop key k hole e s).min_heap_idx x ≡ s.min_heap_idx x
  unfolding shift_down_loop place
  shift_down_loop-outside zero hole e x s b l ne out = refl
  shift_down_loop-outside (suc k) hole e x s b l ne out =
      let right = 2 * (hole + 1) % u32_mod in
      let at : right ≡ 2 * hole + 2 = omega arith in
      let m = min_child_of key (2 * hole + 2) s in
      elim (Bool-cases (leb (2 * hole + 2) s.n)) [
        | inl more ↦
            let c = min_child_of-IsSmallerChild key s hole (omega arith) (ground arith) in
            let below = out m c.inside (λ q. omega (arith, q, c.child)) in
            let ih =
              shift_down_loop-outside k m e x (place hole (s.p m) s) b (omega (arith, c.inside)) ne
                (λ j h q. ground (arith, out j, below)) in
            rw (at, more) (ground (arith, ih, below))
        | inr none_left ↦ rw (at, none_left) (ground arith)
      ]

  -- An element in no slot, other than the one in hand, keeps its field through a push, a pop and an
  -- erase.
  pub min_heap_push-outside :
      (realloc : ℕ → Bool) (e x : ℕ) (s : MinHeap)
      → s.n + 1 < 0x80000000
      → x ≢ e
      → ((i : ℕ) → i < s.n → s.p i ≢ x)
      → (min_heap_push key realloc e s).0.min_heap_idx x ≡ s.min_heap_idx x
  unfolding min_heap_push min_heap_shift_up
  min_heap_push-outside realloc e x s b ne out = elim (min_heap_reserve_cases realloc (s.n + 1) s) [
    | inl f ↦ rw (f, min_heap_push) refl
    | inr (a, h, f) ↦
        let u = set_idx e none (record s { a = a }) in
        let sum : (s.n + 1) % 0x100000000 ≡ s.n + 1 = omega arith in
        let t = record u { n = s.n + 1 } in
        unfold set_idx in
        let kept =
          shift_up_loop-outside (s.n + 1) s.n e x t b (omega arith) ne
            (λ i l q. out i (omega arith)) in
        rw (f, min_heap_push, sum) (ground (arith, kept))
  ]

  pub pop_top-outside :
      (x : ℕ) (s : MinHeap)
      → s.n < 0x7fffffff
      → 0 < s.n
      → ((i : ℕ) → i < s.n → s.p i ≢ x)
      → (pop_top key s).min_heap_idx x ≡ s.min_heap_idx x
  unfolding pop_top set_idx min_heap_shift_down
  pop_top-outside x s b pos out =
      let kept =
        shift_down_loop-outside (s.n - 1 + 1) 0 (s.p (s.n - 1)) x (record s { n = s.n - 1 })
          (omega arith) (omega arith) (λ q. out (s.n - 1) (omega arith) (sym q))
          (λ i l q. out i (omega arith)) in
      ground (arith, kept, out 0)

  pub erase_at-outside :
      (i e x : ℕ) (s : MinHeap)
      → s.n < 0x7fffffff
      → i < s.n
      → x ≢ e
      → ((i : ℕ) → i < s.n → s.p i ≢ x)
      → (erase_at key i e s).min_heap_idx x ≡ s.min_heap_idx x
  unfolding erase_at set_idx min_heap_shift_down min_heap_shift_up
  erase_at-outside i e x s b h ne out =
      let t = record s { n = s.n - 1 } in
      let last = s.p (s.n - 1) in
      let other = λ (q : x ≡ last). out (s.n - 1) (omega arith) (sym q) in
      let down =
        shift_down_loop-outside (s.n - 1 + 1) i last x t (omega arith) (omega arith) other
          (λ j l q. out j (omega arith)) in
      let up =
        shift_up_loop-outside (i + 1) i last x t (omega arith) (omega arith) other
          (λ j l q. out j (omega arith)) in
      if-elim (λ (r : MinHeap). update r.min_heap_idx e none x ≡ s.min_heap_idx x)
        (ltb 0 i && min_heap_elem_greater key (s.p ((i - 1) / 2)) last)
        {x = min_heap_shift_up key i last t} {y = min_heap_shift_down key i last t}
        (λ _. ground (arith, up)) (λ _. ground (arith, down))
