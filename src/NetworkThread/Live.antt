-- ===== src/NetworkThread/Live.antt =====
-- A task that is due when ProcessTasks reads the clock, up to its run.
use tcp_congestion_mininet.Common.{ℕ, ◌+◌, ◌≤◌, ◌<◌, ◌≡◌, refl, ap, arith, Bool, List, [], ◌∷◌}
use native.Mathlib.Decide.{dec_lt}
use tcp_congestion_mininet.Common.Bag.{occurrences}
use tcp_congestion_mininet.Heap.{MinHeap}
use tcp_congestion_mininet.Heap.Order.{count_somewhere}
use tcp_congestion_mininet.NetworkThread.Process.{collect_loop-Collected}
use tcp_congestion_mininet.NetworkThread.Post.{events_of}
use tcp_congestion_mininet.NetworkThread.Shared.{
  Shared, collected, Step, post, collect, run_one, start, Reach, here, later,
}
use tcp_congestion_mininet.NetworkThread.Places.{IsShared, Step-IsShared, Reach-IsShared}

-- The tasks that were taken out of the heap.
abbrev taken_out : Shared → ℕ → ℕ
taken_out s x = occurrences s.pending x + occurrences s.ran x

module _ (realloc : ℕ → Bool) where
  Reach-onward : {s t u : Shared} → Reach realloc s t → Reach realloc t u → Reach realloc s u
  Reach-onward r here = r
  Reach-onward r (later q step) = later (Reach-onward r q) step

  -- No step puts a task back.
  Step-taken_out : (x : ℕ) {s t : Shared} → Step realloc s t → taken_out s x ≤ taken_out t x
  Step-taken_out x {s = s} (post now event time_ms new small) = omega arith
  Step-taken_out x {s = s} (collect time_ms none_left later_) =
      omega (arith, ap (λ l. occurrences l x) none_left)
  Step-taken_out x {s = s} (run_one task rest e) = omega (arith, ap (λ l. occurrences l x) e)

  Reach-taken_out : (x : ℕ) {s t : Shared} → Reach realloc s t → taken_out s x ≤ taken_out t x
  Reach-taken_out x here = omega arith
  Reach-taken_out x (later r step) = omega (arith, Reach-taken_out x r, Step-taken_out x step)

  Reach-kept : {s t : Shared} → Reach realloc s t → IsShared s → IsShared t
  Reach-kept here v = v
  Reach-kept (later r step) v = Step-IsShared realloc step (Reach-kept r v)

  -- What was collected can be run to its end.
  run_all :
      (tasks : List ℕ) (s : Shared)
      → s.pending ≡ tasks
      → (t : Shared) × Reach realloc s t × (t.pending ≡ []) × (t.posted ≡ s.posted)
  run_all [] s e = (s, here, e, refl)
  run_all (task ∷ rest) s e =
      let u = record s { pending = rest; ran = task ∷ s.ran } in
      let (t, r, done, same) = run_all rest u refl in
      (t, Reach-onward (later here (run_one task rest e)) r, done, same)

  -- What is left in the heap after a collection is due later.
  collected-gone :
      (time_ms x : ℕ) (s : Shared)
      → IsShared s
      → s.thread.delay x ≤ time_ms
      → events_of (collected time_ms s).thread x ≡ 0
  collected-gone time_ms x s v due =
      let (events, q, c) =
        collect_loop-Collected (s.thread.s_heap.n + 1) time_ms 0 [] s.thread (omega arith) v.valid
          (λ i l. omega arith) in
      let u = (collected time_ms s).thread in
      elim (dec_lt 0 (events_of u x)) [
        | yes l ↦
            let (i, h, at) = count_somewhere u.s_heap.n u.s_heap.p x l in
            absurd (omega (arith, c.later i h, ap u.delay at, ap (λ f. f x) c.same_delay))
        | no l ↦ omega (arith, l)
      ]

  -- In any state that is reached from an empty thread: a task that was posted and not lost, and
  -- is due when ProcessTasks next reads the clock, which did not go back, has run exactly once in
  -- every later state in which all collected tasks were run, whatever is posted in between; and
  -- there is such a state, without any post.
  pub Reach-ran :
      (delay task : ℕ → ℕ) (memory : MinHeap) (s : Shared) (x time_ms : ℕ)
      → Reach realloc (start delay task memory) s
      → occurrences s.posted x ≡ 1
      → occurrences s.lost x ≡ 0
      → s.pending ≡ []
      → s.clock ≤ time_ms
      → s.thread.delay x ≤ time_ms
      → ((t : Shared)
          → Reach realloc (collected time_ms s) t
          → t.pending ≡ []
          → occurrences t.ran x ≡ 1)
        × ((t : Shared) × Reach realloc (collected time_ms s) t
            × (t.pending ≡ [])
            × (t.posted ≡ s.posted))
  Reach-ran delay task memory s x time_ms r posted kept idle tick due =
      let v = Reach-IsShared realloc delay task memory r in
      let step = collect time_ms idle tick in
      let w = Step-IsShared realloc step v in
      let out : 0 < taken_out (collected time_ms s) x =
        omega (arith, w.places x, collected-gone time_ms x s v due) in
      (
        λ t q done.
            let z = Reach-kept q w in
            omega (
              arith,
              Reach-taken_out x q,
              ap (λ l. occurrences l x) done,
              z.places x,
              z.once x,
              out,
            ),
        run_all _ (collected time_ms s) refl,
      )
