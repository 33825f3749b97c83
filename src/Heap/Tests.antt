-- ===== src/Heap/Tests.antt =====
-- Runs of base/min_heap.h on a heap of two elements, whose keys are their addresses.
use tcp_congestion_mininet.Common.{
  ℕ, ◌≤◌, ◌<◌, ◌≡◌, refl, arith, ◌∙◌, List, [], ◌∷◌, Bool, true, false, none, some, ◌⊎◌, ◌==◌,
  if◌then◌else◌,
}
use tcp_congestion_mininet.Heap.{
  MinHeap, min_heap_reserve, min_heap_push, min_heap_pop, min_heap_erase, erase_at, pop_top,
  shift_up_loop, min_heap_shift_up, shift_down_loop, min_heap_shift_down, place, set_idx, parent,
  free_elem,
}
use tcp_congestion_mininet.Heap.Order.{IsValid, Pushed, Removed}
use tcp_congestion_mininet.Heap.Order.{count}
use tcp_congestion_mininet.Heap.Queue.{
  Call, push, pop, erase, done, taken, AllowedRun, view, call, run, IsQueue, IsCareful,
}
use tcp_congestion_mininet.Heap.Refine.{units-view, run-AllowedRun}
use tcp_congestion_mininet.Heap.Push.{asked, min_heap_push_lem}
use tcp_congestion_mininet.Heap.Remove.{min_heap_pop_cases, min_heap_erase-Removed}
use tcp_congestion_mininet.Heap.Memory.{pop_top-dangling, pop_top-live}

abbrev two : MinHeap
two = record {
  p = λ i. if i == 0 then 5 else 9;
  n = 2;
  a = 8;
  min_heap_idx = λ e. if e == 5 then some 0 else if e == 9 then some 1 else none;
  freed = λ e. false;
  dangling = 0;
}

abbrev key : ℕ → ℕ
key e = e

abbrev always : ℕ → Bool
always n = true

two-IsValid : IsValid key two
two-IsValid = record {
  order = λ c p q. ground arith;
  indexed = λ i h. ground arith;
  room = omega arith;
  small = omega arith;
}

-- The least element comes up from the last slot, and the next one after it.
pushed_pops :
    let (s, _) = min_heap_push key always 3 two in
    let (t, a) = min_heap_pop key s in
    let (u, b) = min_heap_pop key t in (a ≡ some 3) × (b ≡ some 5) × (u.n ≡ 1)
unfolding min_heap_push min_heap_reserve min_heap_pop pop_top min_heap_shift_up shift_up_loop
    min_heap_shift_down shift_down_loop place set_idx parent
pushed_pops = (refl, refl, refl)

min_heap_push_lem_example :
    (((2 < two.a) ⊎ ((two.a ≡ 2) × (always (asked two.a) ≡ true)))
      × ((r : MinHeap) × (min_heap_push key always 7 two ≡ (r, true)) × Pushed key two 7 r))
    ⊎ ((two.a ≡ 2)
        × (always (asked two.a) ≡ false)
        × (min_heap_push key always 7 two ≡ (two, false)))
min_heap_push_lem_example =
    min_heap_push_lem key two 7 two-IsValid (λ i h e. ground arith) always (omega arith)

min_heap_pop_cases_example :
    ((two.n ≡ 0) × (min_heap_pop key two ≡ (two, none)))
    ⊎ ((r : MinHeap) × (min_heap_pop key two ≡ (r, some 5))
        × Removed key two 5 r
        × ((i : ℕ) → i < 2 → 5 ≤ key (two.p i)))
min_heap_pop_cases_example = min_heap_pop_cases key two two-IsValid

min_heap_erase-Removed_example :
    (r : MinHeap) × (min_heap_erase key 9 two ≡ (r, true)) × Removed key two 9 r
min_heap_erase-Removed_example = min_heap_erase-Removed key two 1 two-IsValid (omega arith)

pop_top-dangling_example : 0 < (pop_top key (free_elem 5 two)).dangling
unfolding free_elem
pop_top-dangling_example = pop_top-dangling key (free_elem 5 two) (unfold free_elem in refl)

pop_top-live_example : (pop_top key two).dangling ≡ 0
pop_top-live_example = pop_top-live key two (omega arith) (omega arith) (λ i h. refl)

two-IsQueue : IsQueue key two
unfolding count
two-IsQueue = record { valid = two-IsValid; known = λ x h. ground (arith, h) }

abbrev calls : List Call
calls = push 3 ∷ pop ∷ erase 9 ∷ erase 4 ∷ pop ∷ pop ∷ []

-- The answers are those of a queue with 5 and 9 in it.
run_answers :
    (run always key calls two).1
    ≡ done true ∷ taken (some 3) ∷ done true ∷ done false ∷ taken (some 5) ∷ taken none ∷ []
unfolding run call min_heap_push min_heap_reserve min_heap_pop pop_top min_heap_erase erase_at
    min_heap_shift_up shift_up_loop min_heap_shift_down shift_down_loop place set_idx parent
run_answers = refl

calls-IsCareful : IsCareful always key calls two
unfolding IsCareful
calls-IsCareful = (units-view 3 two ∙ (unfold count in refl), (tt, (tt, (tt, (tt, (tt, tt))))))

run-AllowedRun_example :
    AllowedRun always key
      (view two)
      calls
      (run always key calls two).1
      (view (run always key calls two).0)
    × IsQueue key (run always key calls two).0
run-AllowedRun_example =
    run-AllowedRun always key calls two two-IsQueue (omega arith) calls-IsCareful
