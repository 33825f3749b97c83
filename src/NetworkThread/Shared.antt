-- ===== src/NetworkThread/Shared.antt =====
-- Several threads that post tasks to one thread of tcp/network_thread.cc, in any order of their turns.
-- The lock makes a post and a collection of due events one turn each; the tasks that were collected run
-- one by one, and whatever a task posts is a turn of its own. An event's number names it for ever, and
-- its task bears the same number.
use tcp_congestion_mininet.Common.{ℕ, ◌+◌, ◌%◌, ◌≤◌, ◌<◌, ◌≡◌, Bool, List, [], ◌∷◌, if◌then◌else◌}
use tcp_congestion_mininet.Common.Words.{u64_mod}
use tcp_congestion_mininet.Heap.{MinHeap, min_heap_push}
use tcp_congestion_mininet.NetworkThread.{
  NetworkThread, new_event, post_delayed_task, collect_loop, new_network_thread,
}
use tcp_congestion_mininet.Common.Bag.{occurrences}

-- `pending` is the list pending_tasks of ProcessTasks; what was posted, run, and lost for want of
-- memory is written down, and the last reading of the clock by ProcessTasks.
pub record Shared : Type 0 where
  pub thread : NetworkThread ℕ
  pub pending : List ℕ
  pub posted : List ℕ
  pub ran : List ℕ
  pub lost : List ℕ
  pub clock : ℕ

-- The result of min_heap_push, which PostDelayedTask drops.
unfoldable pub is_pushed : (ℕ → Bool) → ℕ → ℕ → ℕ → NetworkThread ℕ → Bool
is_pushed realloc now event time_ms t =
    let u = new_event event ((now + time_ms) % u64_mod) event t in
    (min_heap_push u.delay realloc event u.s_heap).1

-- The part of ProcessTasks under the lock.
abbrev pub collected : ℕ → Shared → Shared
collected time_ms s = record s {
  thread = (collect_loop (s.thread.s_heap.n + 1) time_ms [] s.thread).0;
  pending = (collect_loop (s.thread.s_heap.n + 1) time_ms [] s.thread).1;
  clock = time_ms;
}

pub data Step (realloc : ℕ → Bool) (s : Shared) : Shared → Type 0 where
  post :
      (now event time_ms : ℕ)
      → occurrences s.posted event ≡ 0
      → s.thread.s_heap.n + 1 < 0x80000000
      → Step realloc s (record s {
        thread = post_delayed_task realloc now event event time_ms s.thread;
        posted = event ∷ s.posted;
        lost = if is_pushed realloc now event time_ms s.thread then s.lost else event ∷ s.lost;
      })
  collect :
      (time_ms : ℕ) → s.pending ≡ [] → s.clock ≤ time_ms → Step realloc s (collected time_ms s)
  run_one :
      (task : ℕ) (rest : List ℕ)
      → s.pending ≡ task ∷ rest
      → Step realloc s (record s { pending = rest; ran = task ∷ s.ran })

abbrev pub start : (ℕ → ℕ) → (ℕ → ℕ) → MinHeap → Shared
start delay task memory = record {
  thread = new_network_thread delay task memory;
  pending = [];
  posted = [];
  ran = [];
  lost = [];
  clock = 0;
}

pub data Reach (realloc : ℕ → Bool) (s : Shared) : Shared → Type 0 where
  here : Reach realloc s s
  later : {t u : Shared} → Reach realloc s t → Step realloc t u → Reach realloc s u
