-- ===== src/Closure.antt =====
-- tcp/task_queue.h: the tasks that a thread runs, closures over the program's state, and their cleanup.
mod Tests
use tcp_congestion_mininet.Common.{Bool, true, false, List, [], ◌∷◌, ◌++◌, ◌≡◌, refl, ap, ◌∙◌}

module _ (State : Type 0) where
  pub data QueuedTask : Type 0 where
    closure_task : (State → State) → QueuedTask
    closure_task_with_cleanup : (State → State) → (State → State) → QueuedTask

module _ {State : Type 0} where
  abbrev pub new_closure : (State → State) → QueuedTask State
  new_closure closure = closure_task closure

  abbrev pub new_closure_with_cleanup : (State → State) → (State → State) → QueuedTask State
  new_closure_with_cleanup closure cleanup = closure_task_with_cleanup closure cleanup

  -- Run returns true, in every case.
  unfoldable pub run : QueuedTask State → State → State × Bool
  run (closure_task closure) s = (closure s, true)
  run (closure_task_with_cleanup closure cleanup) s = (closure s, true)

  -- The destructor.
  unfoldable pub destroy : QueuedTask State → State → State
  destroy (closure_task closure) s = s
  destroy (closure_task_with_cleanup closure cleanup) s = cleanup s

  -- What a thread does with a task that is due: its pointer goes out of scope after the call.
  unfoldable pub run_once : QueuedTask State → State → State
  run_once task s = destroy task (run task s).0

  unfoldable pub run_all : List (QueuedTask State) → State → State
  run_all [] s = s
  run_all (task ∷ tasks) s = run_all tasks (run_once task s)

  -- The tasks of one list after those of another: every closure runs before its own cleanup and before
  -- the next closure.
  run_all-append :
      (xs ys : List (QueuedTask State)) (s : State)
      → run_all (xs ++ ys) s ≡ run_all ys (run_all xs s)
  unfolding run_all
  run_all-append [] ys s = refl
  run_all-append (x ∷ xs) ys s = run_all-append xs ys (run_once x s)
