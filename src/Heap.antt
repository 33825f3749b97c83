-- ===== src/Heap.antt =====
-- base/min_heap.h: an intrusive binary min-heap of element pointers.
-- An element is its address. `p`, `n` and `a` are the struct's fields, with `p` read as a function
-- from slots; `min_heap_idx` is that field of every element, with `none` for -1; `freed` says which
-- elements were deleted, and `dangling` counts the writes to a deleted one.
-- The key of an element is the parameter `key`; `operator>` of TaskEvent compares it.
pub mod Order
pub mod Up
pub mod Down
pub mod Push
pub mod Remove
pub mod Memory
pub mod Outside
pub mod Queue
pub mod Refine
mod Tests
use tcp_congestion_mininet.Common.{
  ℕ, zero, suc, ◌+◌, ◌-◌, ◌*◌, ◌/◌, ◌%◌, Bool, true, false, ◌&&◌, ◌||◌, not, Option, none, some,
  ltb, leb, ◌==◌, if◌then◌else◌, update,
}
use tcp_congestion_mininet.Common.Words.{u32_mod, sub32}

pub record MinHeap : Type 0 where
  pub p : ℕ → ℕ
  pub n : ℕ
  pub a : ℕ
  pub min_heap_idx : ℕ → Option ℕ
  pub freed : ℕ → Bool
  pub dangling : ℕ

-- `e->min_heap_idx = i`
unfoldable pub set_idx : ℕ → Option ℕ → MinHeap → MinHeap
set_idx e i s = record s {
  min_heap_idx = update s.min_heap_idx e i;
  dangling = s.dangling + (if s.freed e then 1 else 0);
}

-- `(s->p[i] = e)->min_heap_idx = i`
unfoldable pub place : ℕ → ℕ → MinHeap → MinHeap
unfolding set_idx
place i e s = set_idx e (some i) (record s { p = update s.p i e })

-- `(hole_index - 1) / 2` on unsigned
unfoldable pub parent : ℕ → ℕ
parent i = sub32 i 1 / 2

unfoldable pub min_heap_empty : MinHeap → Bool
min_heap_empty s = 0 == s.n

unfoldable pub min_heap_top : MinHeap → Option ℕ
min_heap_top s = if s.n == 0 then none else some (s.p 0)

-- `delete e`
unfoldable pub free_elem : ℕ → MinHeap → MinHeap
free_elem e s = record s { freed = update s.freed e true }

-- The allocator says whether it can give that many slots.
unfoldable pub min_heap_reserve : (ℕ → Bool) → ℕ → MinHeap → Option MinHeap
min_heap_reserve realloc n s =
    let twice = if s.a == 0 then 8 else s.a * 2 % u32_mod in
    let a = if ltb twice n then n else twice in
    if ltb s.a n then (if realloc a then some (record s { a = a }) else none) else some s

module _ (key : ℕ → ℕ) where
  -- `*a > *b`
  abbrev pub min_heap_elem_greater : ℕ → ℕ → Bool
  min_heap_elem_greater a b = ltb (key b) (key a)

  pub shift_up_loop : ℕ → ℕ → ℕ → MinHeap → MinHeap
  shift_up_loop zero hole e s = s
  shift_up_loop (suc k) hole e s =
      let up = parent hole in
      let rest = shift_up_loop k up e (place hole (s.p up) s) in
      if not (hole == 0) && min_heap_elem_greater (s.p up) e then rest else place hole e s

  unfoldable pub min_heap_shift_up : ℕ → ℕ → MinHeap → MinHeap
  unfolding shift_up_loop place parent
  min_heap_shift_up hole e s = shift_up_loop (hole + 1) hole e s

  -- `min_child -= min_child == s->n || ...`
  pub min_child_of : ℕ → MinHeap → ℕ
  min_child_of c s =
      sub32 c (if c == s.n || min_heap_elem_greater (s.p c) (s.p (sub32 c 1)) then 1 else 0)

  pub shift_down_loop : ℕ → ℕ → ℕ → MinHeap → MinHeap
  shift_down_loop zero hole e s = s
  shift_down_loop (suc k) hole e s =
      let right = 2 * (hole + 1) % u32_mod in
      let child = min_child_of right s in
      let rest = shift_down_loop k child e (place hole (s.p child) s) in
      if leb right s.n && min_heap_elem_greater e (s.p child) then rest else place hole e s

  unfoldable pub min_heap_shift_down : ℕ → ℕ → MinHeap → MinHeap
  unfolding shift_down_loop min_child_of place
  min_heap_shift_down hole e s = shift_down_loop (s.n + 1) hole e s

  -- false is the return value -1
  unfoldable pub min_heap_push : (ℕ → Bool) → ℕ → MinHeap → MinHeap × Bool
  unfolding min_heap_reserve set_idx
  min_heap_push realloc e s = elim (min_heap_reserve realloc (s.n + 1) s) [
    | none ↦ (s, false)
    | some t ↦
        let u = set_idx e none t in
        (min_heap_shift_up u.n e (record u { n = (u.n + 1) % u32_mod }), true)
  ]

  -- `min_heap_shift_down_(s, 0u, s->p[--s->n]); e->min_heap_idx = -1`
  pub pop_top : MinHeap → MinHeap
  pop_top s =
      let m = s.n - 1 in set_idx (s.p 0) none (min_heap_shift_down 0 (s.p m) (record s { n = m }))

  unfoldable pub min_heap_pop : MinHeap → MinHeap × Option ℕ
  unfolding pop_top
  min_heap_pop s = if s.n == 0 then (s, none) else (pop_top s, some (s.p 0))

  pub erase_at : ℕ → ℕ → MinHeap → MinHeap
  erase_at i e s =
      let m = s.n - 1 in
      let last = s.p m in
      let t = record s { n = m } in
      set_idx e none (
        if ltb 0 i && min_heap_elem_greater (s.p ((i - 1) / 2)) last
        then min_heap_shift_up i last t
        else min_heap_shift_down i last t)

  unfoldable pub min_heap_erase : ℕ → MinHeap → MinHeap × Bool
  min_heap_erase e s = elim (s.min_heap_idx e) [
    | none ↦ (s, false)
    | some i ↦ (erase_at i e s, true)
  ]

unfoldable pub min_heap_ctor : MinHeap → MinHeap
min_heap_ctor s = record s { p = λ _. 0; n = 0; a = 0 }
