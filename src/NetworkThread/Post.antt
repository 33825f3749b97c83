-- ===== src/NetworkThread/Post.antt =====
-- PostDelayedTask, ProcessTasks as a whole, and Clear.
use tcp_congestion_mininet.Common.{
  ℕ, zero, suc, ◌+◌, ◌-◌, ◌/◌, ◌%◌, ◌<◌, ◌≡◌, ◌≢◌, refl, ap, ◌∙◌, Bool, true, false, none, arith,
  ◌==◌, List, [], if◌then◌else◌, Bool-cases, inl, inr, map, ◌⊎◌,
}
use tcp_congestion_mininet.Common.Words.{u64_mod}
use tcp_congestion_mininet.Heap.{MinHeap, free_elem, min_heap_pop, min_heap_empty, min_heap_reserve}
use tcp_congestion_mininet.Heap.Order.{count, count_somewhere, count_here, IsValid, Removed}
use tcp_congestion_mininet.Heap.Push.{min_heap_push_cases}
use tcp_congestion_mininet.Heap.Remove.{pop_top-Removed, min_heap_pop-state}
use tcp_congestion_mininet.Heap.Memory.{pop_top-live, IsLive}
use tcp_congestion_mininet.NetworkThread.{
  NetworkThread, new_event, post_delayed_task, collect_loop, run_tasks, process_tasks, clear_loop,
  clear,
}
use tcp_congestion_mininet.NetworkThread.Process.{
  Collected, free_elem-IsValid, collect_loop-Collected,
}

module _ {Task : Type 0} where
  -- The events of the thread, as a bag of addresses.
  abbrev pub events_of : NetworkThread Task → ℕ → ℕ
  events_of t = count t.s_heap.n t.s_heap.p

  pub new_event-IsValid :
      (t : NetworkThread Task) (event future : ℕ) (task : Task)
      → IsValid t.delay t.s_heap
      → ((i : ℕ) → i < t.s_heap.n → t.s_heap.p i ≢ event)
      → IsValid (new_event event future task t).delay (new_event event future task t).s_heap
  unfolding new_event
  new_event-IsValid t event future task v fresh = record {
    order = λ c p q. ground (arith, v.order c, fresh c, fresh ((c - 1) / 2));
    indexed = v.indexed;
    room = v.room;
    small = v.small;
  }

  -- On a valid heap with room for one more, posting a task at a new address adds one event, due
  -- `time_ms` from now; where the allocation fails, the events are those there were. The heap is
  -- valid in both cases.
  pub post_delayed_task_lem :
      (realloc : ℕ → Bool) (now event : ℕ) (task : Task) (time_ms : ℕ) (t : NetworkThread Task)
      → IsValid t.delay t.s_heap
      → t.s_heap.n + 1 < 0x80000000
      → ((i : ℕ) → i < t.s_heap.n → t.s_heap.p i ≢ event)
      → let u = post_delayed_task realloc now event task time_ms t in
        IsValid u.delay u.s_heap
        × (((min_heap_reserve realloc
                  (t.s_heap.n + 1)
                  (new_event event ((now + time_ms) % u64_mod) task t).s_heap
                ≡ none)
              × ((x : ℕ) → events_of u x ≡ events_of t x))
            ⊎ (((x : ℕ) → events_of u x ≡ events_of t x + (if event == x then 1 else 0))
                × (u.delay event ≡ (now + time_ms) % u64_mod)
                × (u.task event ≡ task)))
  unfolding post_delayed_task
  post_delayed_task_lem realloc now event task time_ms t v small fresh =
      let w = new_event event ((now + time_ms) % u64_mod) task t in
      let valid = new_event-IsValid t event ((now + time_ms) % u64_mod) task v fresh in
      unfold new_event in
      elim (min_heap_push_cases w.delay w.s_heap event valid fresh realloc small) [
        | inl (no_room, e) ↦ rw e (valid, inl (no_room, λ x. refl))
        | inr (r, e, d) ↦ rw e (d.valid, inr (d.bag, ground arith, ground arith))
      ]

  filled : (t : NetworkThread Task) → min_heap_empty t.s_heap ≡ false → 0 < t.s_heap.n
  unfolding min_heap_empty
  filled t h = ground arith

  empty_zero : (t : NetworkThread Task) → min_heap_empty t.s_heap ≡ true → t.s_heap.n ≡ 0
  unfolding min_heap_empty
  empty_zero t h = ground arith

  no_event :
      (t : NetworkThread Task) → min_heap_empty t.s_heap ≡ true → (x : ℕ) → ¬ (0 < events_of t x)
  no_event t h x l =
      let (i, m, q) = count_somewhere t.s_heap.n t.s_heap.p x l in
      absurd (omega (arith, empty_zero t h))

  -- One round of Clear takes out the root, with every write to a live element, and deletes it.
  module _ (t : NetworkThread Task) (v : IsValid t.delay t.s_heap) (pos : 0 < t.s_heap.n)
      (small : t.s_heap.n < 0x7fffffff) (live : IsLive t.s_heap) where
    abbrev cleared : MinHeap
    cleared = free_elem (t.s_heap.p 0) (min_heap_pop t.delay t.s_heap).0

    clear-Removed : Removed t.delay t.s_heap (t.s_heap.p 0) (min_heap_pop t.delay t.s_heap).0
    clear-Removed =
        rw (min_heap_pop-state t.delay t.s_heap pos) (pop_top-Removed t.delay t.s_heap v pos)

    clear_written : cleared.dangling ≡ t.s_heap.dangling
    unfolding free_elem
    clear_written =
        rw (min_heap_pop-state t.delay t.s_heap pos) (pop_top-live t.delay t.s_heap pos small live)

    clear-IsLive : IsLive cleared
    unfolding free_elem
    clear-IsLive i h =
        let d = clear-Removed in
        let (j, l, q) =
          count_somewhere t.s_heap.n t.s_heap.p (cleared.p i)
            (omega (arith, d.bag (cleared.p i), count_here _ cleared.p i h)) in
        ground (arith, d.valid.indexed i, d.unnamed, d.same_freed (cleared.p i), live j l, q)

  clear_loop_lem :
      (fuel : ℕ) (t : NetworkThread Task)
      → t.s_heap.n < fuel
      → IsValid t.delay t.s_heap
      → t.s_heap.n < 0x7fffffff
      → IsLive t.s_heap
      → let u = clear_loop fuel t in
        (u.s_heap.n ≡ 0)
        × (u.s_heap.dangling ≡ t.s_heap.dangling)
        × ((x : ℕ) → 0 < events_of t x → u.s_heap.freed x ≡ true)
        × ((x : ℕ) → t.s_heap.freed x ≡ true → u.s_heap.freed x ≡ true)
  unfolding clear_loop free_elem
  clear_loop_lem zero t f v small live = absurd (omega arith)
  clear_loop_lem (suc fuel) t f v small live = elim (Bool-cases (min_heap_empty t.s_heap)) [
    | inl empty ↦
        rw empty (empty_zero t empty, refl, λ x h. absurd (no_event t empty x h), λ x h. h)
    | inr more ↦
        let pos = filled t more in
        let d = clear-Removed t v pos small live in
        let (done, written, gone, kept) =
          clear_loop_lem fuel (record t { s_heap = cleared t v pos small live })
            (omega (arith, d.fewer)) (free_elem-IsValid t.delay (t.s_heap.p 0) _ d.valid)
            (omega (arith, d.fewer)) (clear-IsLive t v pos small live) in
        rw more (
          done,
          written ∙ clear_written t v pos small live,
          λ x h. ground (arith, d.bag x, gone x, kept x),
          λ x h. ground (arith, d.same_freed x, kept x),
        )
  ]

  -- On a valid heap of live events, Clear empties the heap, deletes every event, and writes to no
  -- deleted one.
  pub clear_lem :
      (t : NetworkThread Task)
      → IsValid t.delay t.s_heap
      → t.s_heap.n < 0x7fffffff
      → IsLive t.s_heap
      → ((clear t).s_heap.n ≡ 0)
        × ((clear t).s_heap.dangling ≡ t.s_heap.dangling)
        × ((x : ℕ) → 0 < events_of t x → (clear t).s_heap.freed x ≡ true)
  unfolding clear
  clear_lem t v small live =
      let (done, written, gone, kept) =
        clear_loop_lem (t.s_heap.n + 1) t (omega arith) v small live in
      (done, written, gone)

  -- On a valid heap, ProcessTasks runs exactly the due tasks, in the order of their times, and
  -- keeps the others in a valid heap.
  pub process_tasks_lem :
      (run : Task → NetworkThread Task → NetworkThread Task) (time_ms : ℕ) (t : NetworkThread Task)
      → IsValid t.delay t.s_heap
      → (events : List ℕ) × (u : NetworkThread Task) × (process_tasks run time_ms t
          ≡ run_tasks run (map t.task events) u)
        × Collected time_ms 0 t events u
  unfolding process_tasks
  process_tasks_lem run time_ms t v =
      let (events, q, c) =
        collect_loop-Collected (t.s_heap.n + 1) time_ms 0 [] t (omega arith) v
          (λ i l. omega arith) in
      (events, _, ap (λ ts. run_tasks run ts (collect_loop (t.s_heap.n + 1) time_ms [] t).0) q, c)
