-- ===== src/NetworkThread/Tests.antt =====
-- Runs of tcp/network_thread.cc on a thread with two tasks, due at 5 and at 9.
use tcp_congestion_mininet.Common.{
  ℕ, ◌+◌, ◌<◌, ◌≡◌, refl, arith, Bool, true, false, none, some, ◌==◌, if◌then◌else◌, List, [], ◌∷◌,
  map,
}
use tcp_congestion_mininet.Heap.{
  MinHeap, min_heap_ctor, min_heap_push, min_heap_shift_up, min_heap_empty, min_heap_pop, free_elem,
  min_heap_shift_down,
}
use tcp_congestion_mininet.Heap.Order.{IsValid}
use tcp_congestion_mininet.NetworkThread.{
  NetworkThread, post_delayed_task, process_tasks, run_tasks, clear, collect_loop,
  new_network_thread,
}
use tcp_congestion_mininet.NetworkThread.Process.{Collected}
use tcp_congestion_mininet.NetworkThread.Post.{events_of, process_tasks_lem, clear_lem}
use tcp_congestion_mininet.NetworkThread.Shared.{
  Shared, collected, is_pushed, post, collect, run_one, start, Reach, here, later,
}
use tcp_congestion_mininet.Common.Bag.{occurrences}
use tcp_congestion_mininet.NetworkThread.Live.{Reach-ran}
use tcp_congestion_mininet.NetworkThread.Places.{IsShared, Reach-IsShared}

abbrev heap : MinHeap
heap = record {
  p = λ i. if i == 0 then 1 else 2;
  n = 2;
  a = 8;
  min_heap_idx = λ e. if e == 1 then some 0 else if e == 2 then some 1 else none;
  freed = λ e. false;
  dangling = 0;
}

-- The tasks are numbers.
abbrev thread : NetworkThread ℕ
thread = record { s_heap = heap; delay = λ e. if e == 1 then 5 else 9; task = λ e. e + 100 }

heap-IsValid : IsValid thread.delay heap
heap-IsValid = record {
  order = λ c p q. ground arith;
  indexed = λ i h. ground arith;
  room = omega arith;
  small = omega arith;
}

abbrev always : ℕ → Bool
always n = true

abbrev ignore : ℕ → NetworkThread ℕ → NetworkThread ℕ
ignore n t = t

process_tasks_lem_example :
    (events : List ℕ) × (u : NetworkThread ℕ) × (process_tasks ignore 6 thread
      ≡ run_tasks ignore (map thread.task events) u)
    × Collected 6 0 thread events u
process_tasks_lem_example = process_tasks_lem ignore 6 thread heap-IsValid

clear_lem_example :
    ((clear thread).s_heap.n ≡ 0)
    × ((clear thread).s_heap.dangling ≡ 0)
    × ((x : ℕ) → 0 < events_of thread x → (clear thread).s_heap.freed x ≡ true)
clear_lem_example = clear_lem thread heap-IsValid (omega arith) (λ i h. refl)

-- A task posted at time 3 for time 7, collected at time 8, and run.
abbrev after_post : Shared
after_post = record {
  thread = post_delayed_task always 3 7 7 4 (start (λ _. 0) (λ _. 0) heap).thread;
  pending = [];
  posted = 7 ∷ [];
  ran = [];
  lost = if is_pushed always 3 7 4 (start (λ _. 0) (λ _. 0) heap).thread then [] else 7 ∷ [];
  clock = 0;
}

abbrev after_collect : Shared
after_collect = record after_post {
  thread = (collect_loop (after_post.thread.s_heap.n + 1) 8 [] after_post.thread).0;
  pending = (collect_loop (after_post.thread.s_heap.n + 1) 8 [] after_post.thread).1;
  clock = 8;
}

after_run-Reach :
    Reach always
      (start (λ _. 0) (λ _. 0) heap)
      (record after_collect { pending = []; ran = 7 ∷ [] })
unfolding new_network_thread min_heap_ctor collect_loop post_delayed_task min_heap_push
    min_heap_shift_up min_heap_empty min_heap_pop free_elem min_heap_shift_down
after_run-Reach =
    later (later (later here (post 3 7 4 refl (omega arith))) (collect 8 refl (omega arith)))
      (run_one 7 [] refl)

Reach-IsShared_example : IsShared (record after_collect { pending = []; ran = 7 ∷ [] })
Reach-IsShared_example = Reach-IsShared always (λ _. 0) (λ _. 0) heap after_run-Reach

after_post-Reach : Reach always (start (λ _. 0) (λ _. 0) heap) after_post
unfolding new_network_thread min_heap_ctor
after_post-Reach = later here (post 3 7 4 refl (omega arith))

Reach-ran_example :
    ((t : Shared)
      → Reach always (collected 8 after_post) t
      → t.pending ≡ []
      → occurrences t.ran 7 ≡ 1)
    × ((t : Shared) × Reach always (collected 8 after_post) t
        × (t.pending ≡ [])
        × (t.posted ≡ 7 ∷ []))
unfolding new_network_thread min_heap_ctor post_delayed_task min_heap_push min_heap_shift_up
    is_pushed
Reach-ran_example =
    Reach-ran always (λ _. 0) (λ _. 0) heap after_post 7 8 after_post-Reach refl refl refl
      (omega arith) (omega arith)
