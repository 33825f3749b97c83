-- ===== src/Heap/Memory.antt =====
-- Which elements the sift loops of base/min_heap.h write to.
use tcp_congestion_mininet.Common.{
  ℕ, zero, suc, ◌+◌, ◌-◌, ◌*◌, ◌%◌, ◌≤◌, ◌<◌, ◌≡◌, refl, true, false, arith, Bool-cases, inl, inr,
  leb,
}
use tcp_congestion_mininet.Common.Words.{u32_mod}
use tcp_congestion_mininet.Heap.{
  MinHeap, set_idx, place, min_child_of, shift_down_loop, min_heap_shift_down, pop_top,
}

abbrev pub IsLive : MinHeap → Type 0
IsLive s = (i : ℕ) → i < s.n → s.freed (s.p i) ≡ false

module _ (key : ℕ → ℕ) where
  shift_down_loop-dangling_le :
      (k hole e : ℕ) (s : MinHeap) → s.dangling ≤ (shift_down_loop key k hole e s).dangling
  unfolding shift_down_loop place
  shift_down_loop-dangling_le zero hole e s = omega arith
  shift_down_loop-dangling_le (suc k) hole e s =
      let right = 2 * (hole + 1) % u32_mod in
      let child = min_child_of key right s in
      ground (arith, shift_down_loop-dangling_le k child e (place hole (s.p child) s))

  shift_down_loop-freed :
      (k hole e : ℕ) (s : MinHeap) → (shift_down_loop key k hole e s).freed ≡ s.freed
  unfolding shift_down_loop place
  shift_down_loop-freed zero hole e s = refl
  shift_down_loop-freed (suc k) hole e s =
      let right = 2 * (hole + 1) % u32_mod in
      let child = min_child_of key right s in
      ground (arith, shift_down_loop-freed k child e (place hole (s.p child) s))

  min_child_of-inside :
      (s : MinHeap) (hole : ℕ)
      → s.n < 0x80000000
      → 2 * hole + 2 ≤ s.n
      → min_child_of key (2 * hole + 2) s < s.n
  unfolding min_child_of
  min_child_of-inside s hole b h = ground arith

  place-IsLive :
      (s : MinHeap) (hole child : ℕ) → child < s.n → IsLive s → IsLive (place hole (s.p child) s)
  unfolding place
  place-IsLive s hole child h l i q = ground (arith, l i, l child)

  -- Sifting a live element through a heap of live elements writes to live elements only.
  shift_down_loop-live :
      (k hole e : ℕ) (s : MinHeap)
      → s.n < 0x7fffffff
      → hole ≤ s.n
      → s.freed e ≡ false
      → IsLive s
      → (shift_down_loop key k hole e s).dangling ≡ s.dangling
  unfolding shift_down_loop place
  shift_down_loop-live zero hole e s b h f l = refl
  shift_down_loop-live (suc k) hole e s b h f l =
      let right = 2 * (hole + 1) % u32_mod in
      let at : right ≡ 2 * hole + 2 = omega arith in
      let child = min_child_of key (2 * hole + 2) s in
      let next = place hole (s.p child) s in
      elim (Bool-cases (leb (2 * hole + 2) s.n)) [
        | inl more ↦
            let inside = min_child_of-inside s hole (omega arith) (ground arith) in
            let ih =
              shift_down_loop-live k child e next b (omega arith) f
                (place-IsLive s hole child inside l) in
            rw (at, more) (ground (arith, ih, l child))
        | inr none_left ↦ rw (at, none_left) (ground arith)
      ]

  -- Popping a root that was deleted writes to deleted memory.
  pub pop_top-dangling :
      (s : MinHeap) → s.freed (s.p 0) ≡ true → s.dangling < (pop_top key s).dangling
  unfolding pop_top set_idx min_heap_shift_down
  pop_top-dangling s h = ground (
    arith,
    shift_down_loop-dangling_le (s.n - 1 + 1) 0 (s.p (s.n - 1)) (record s { n = s.n - 1 }),
    shift_down_loop-freed (s.n - 1 + 1) 0 (s.p (s.n - 1)) (record s { n = s.n - 1 }),
  )

  -- Popping from a heap of live elements writes to live elements only.
  pub pop_top-live :
      (s : MinHeap) → 0 < s.n → s.n < 0x7fffffff → IsLive s → (pop_top key s).dangling ≡ s.dangling
  unfolding pop_top set_idx min_heap_shift_down
  pop_top-live s pos b l = ground (
    arith,
    shift_down_loop-live (s.n - 1 + 1) 0 (s.p (s.n - 1)) (record s { n = s.n - 1 }) (omega arith)
        (omega arith) (l (s.n - 1) (omega arith)) (λ i h. l i (omega arith)),
    shift_down_loop-freed (s.n - 1 + 1) 0 (s.p (s.n - 1)) (record s { n = s.n - 1 }),
    l 0 pos,
  )
