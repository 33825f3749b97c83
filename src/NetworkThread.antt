-- ===== src/NetworkThread.antt =====
-- tcp/network_thread.cc and tcp/task_queue.h: tasks posted with a delay, run when they are due.
-- An event is the address of a TaskEvent: `delay` and `task` are its fields. `new` is the argument
-- `event`, `now` the reading of the clock, and `realloc` the allocator's answer to the heap.
pub mod Process
pub mod Post
pub mod Shared
pub mod Posting
pub mod Places
pub mod Live
mod Tests
use tcp_congestion_mininet.Common.{
  ℕ, zero, suc, ◌+◌, ◌%◌, Bool, true, false, List, [], ◌∷◌, ◌++◌, leb, if◌then◌else◌, update, map,
}
use tcp_congestion_mininet.Common.Words.{u64_mod}
use tcp_congestion_mininet.Heap.{
  MinHeap, free_elem, min_heap_empty, min_heap_push, min_heap_pop, min_heap_ctor,
}

module _ (Task : Type 0) where
  pub record NetworkThread : Type 0 where
    pub s_heap : MinHeap
    pub delay : ℕ → ℕ
    pub task : ℕ → Task

module _ {Task : Type 0} where
  -- `new TaskEvent(future, task)`
  pub new_event : ℕ → ℕ → Task → NetworkThread Task → NetworkThread Task
  new_event event future task t = record t {
    s_heap = record (t.s_heap) { freed = update t.s_heap.freed event false };
    delay = update t.delay event future;
    task = update t.task event task;
  }

  -- The result of min_heap_push is not looked at.
  pub post_delayed_task : (ℕ → Bool) → ℕ → ℕ → Task → ℕ → NetworkThread Task → NetworkThread Task
  unfolding new_event
  post_delayed_task realloc now event task time_ms t =
      let u = new_event event ((now + time_ms) % u64_mod) task t in
      record u { s_heap = (min_heap_push u.delay realloc event u.s_heap).0 }

  pub post_task : (ℕ → Bool) → ℕ → ℕ → Task → NetworkThread Task → NetworkThread Task
  post_task realloc now event task t = post_delayed_task realloc now event task 0 t

  -- The loop under the lock: `delete event` stands before the pop.
  pub collect_loop : ℕ → ℕ → List Task → NetworkThread Task → NetworkThread Task × List Task
  collect_loop zero time_ms pending t = (t, pending)
  collect_loop (suc fuel) time_ms pending t =
      let event = t.s_heap.p 0 in
      let popped = (min_heap_pop t.delay (free_elem event t.s_heap)).0 in
      let rest =
        collect_loop fuel time_ms (pending ++ t.task event ∷ []) (record t { s_heap = popped }) in
      if min_heap_empty t.s_heap
      then (t, pending)
      else if leb (t.delay event) time_ms
      then rest
      else (t, pending)

  -- `task->Run()` for each, in order; a task may do anything to the thread.
  pub run_tasks :
      (Task → NetworkThread Task → NetworkThread Task)
      → List Task
      → NetworkThread Task
      → NetworkThread Task
  run_tasks run [] t = t
  run_tasks run (task ∷ rest) t = run_tasks run rest (run task t)

  pub process_tasks :
      (Task → NetworkThread Task → NetworkThread Task) → ℕ → NetworkThread Task → NetworkThread Task
  unfolding collect_loop run_tasks
  process_tasks run time_ms t =
      let (u, pending) = collect_loop (t.s_heap.n + 1) time_ms [] t in run_tasks run pending u

  clear_loop : ℕ → NetworkThread Task → NetworkThread Task
  clear_loop zero t = t
  clear_loop (suc fuel) t =
      let e = t.s_heap.p 0 in
      let popped = free_elem e (min_heap_pop t.delay t.s_heap).0 in
      let rest = clear_loop fuel (record t { s_heap = popped }) in
      if min_heap_empty t.s_heap then t else rest

  pub clear : NetworkThread Task → NetworkThread Task
  unfolding clear_loop
  clear t = clear_loop (t.s_heap.n + 1) t

  -- The constructor and the destructor; the event loop calls the timer, which polls the queue.
  pub new_network_thread : (ℕ → ℕ) → (ℕ → Task) → MinHeap → NetworkThread Task
  new_network_thread delay task memory = record {
    s_heap = min_heap_ctor memory;
    delay = delay;
    task = task;
  }

  abbrev pub poll_task_queue :
      (Task → NetworkThread Task → NetworkThread Task) → ℕ → NetworkThread Task → NetworkThread Task
  poll_task_queue run time_ms t = process_tasks run time_ms t

  abbrev pub delete_network_thread : NetworkThread Task → NetworkThread Task
  delete_network_thread t = clear t
