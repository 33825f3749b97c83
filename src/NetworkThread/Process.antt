-- ===== src/NetworkThread/Process.antt =====
-- What the loop of ProcessTasks collects.
use tcp_congestion_mininet.Common.{
  ℕ, zero, suc, ◌+◌, ◌≤◌, ◌<◌, ◌≡◌, refl, sym, ◌∙◌, arith, ◌==◌, List, [], ◌∷◌, ◌++◌, Bool-cases,
  inl, inr, leb, map,
}
use tcp_congestion_mininet.Common.Bag.{occurrences}
use tcp_congestion_mininet.Common.Lists.{length, All}
use tcp_congestion_mininet.Heap.{MinHeap, free_elem, min_heap_pop, min_heap_empty}
use tcp_congestion_mininet.Heap.Order.{count, IsValid, Removed, root_least}
use tcp_congestion_mininet.Heap.Remove.{Removed-bound, pop_top-Removed, min_heap_pop-state}
use tcp_congestion_mininet.Heap.Memory.{pop_top-dangling}
use tcp_congestion_mininet.NetworkThread.{NetworkThread, collect_loop}
use mathlib.Core.List.{append-nil, append_assoc}

-- The keys rise along the list, from `b` on.
abbrev pub IsAscending : (ℕ → ℕ) → ℕ → List ℕ → Type 0
IsAscending key b [] = Unit {0}
IsAscending key b (e ∷ es) = (b ≤ key e) × IsAscending key (key e) es

pub free_elem-IsValid :
    (key : ℕ → ℕ) (e : ℕ) (s : MinHeap) → IsValid key s → IsValid key (free_elem e s)
unfolding free_elem
free_elem-IsValid key e s v = record {
  order = v.order;
  indexed = v.indexed;
  room = v.room;
  small = v.small;
}

-- A pop after `delete` still takes out the root, and writes to it.
freed_pop :
    (key : ℕ → ℕ) (s : MinHeap)
    → IsValid key s
    → 0 < s.n
    → let r = (min_heap_pop key (free_elem (s.p 0) s)).0 in
      Removed key (free_elem (s.p 0) s) (s.p 0) r × (s.dangling < r.dangling)
unfolding free_elem
freed_pop key s v h =
    let t = free_elem (s.p 0) s in
    let valid = free_elem-IsValid key (s.p 0) s v in
    rw (min_heap_pop-state key t h)
      (pop_top-Removed key t valid h, pop_top-dangling key t (ground arith))

module _ {Task : Type 0} where
  -- `events` were taken out of `t`, which leaves `u`.
  pub record Collected (time_ms b : ℕ) (t : NetworkThread Task) (events : List ℕ)
      (u : NetworkThread Task) : Type 0 where
    pub valid : IsValid u.delay u.s_heap
    pub same_delay : u.delay ≡ t.delay
    pub same_task : u.task ≡ t.task
    pub later : (i : ℕ) → i < u.s_heap.n → time_ms < u.delay (u.s_heap.p i)
    pub due : All (λ e. t.delay e ≤ time_ms) events
    pub ascending : IsAscending t.delay b events
    pub bag :
        (x : ℕ)
        → count u.s_heap.n u.s_heap.p x + occurrences events x ≡ count t.s_heap.n t.s_heap.p x
    pub dangling : t.s_heap.dangling + length events ≤ u.s_heap.dangling

  collect_step :
      (time_ms b : ℕ) (t : NetworkThread Task) (events : List ℕ) (u : NetworkThread Task)
      → IsValid t.delay t.s_heap
      → 0 < t.s_heap.n
      → b ≤ t.delay (t.s_heap.p 0)
      → t.delay (t.s_heap.p 0) ≤ time_ms
      → Collected time_ms
          (t.delay (t.s_heap.p 0))
          (record t { s_heap = (min_heap_pop t.delay (free_elem (t.s_heap.p 0) t.s_heap)).0 })
          events
          u
      → Collected time_ms b t (t.s_heap.p 0 ∷ events) u
  unfolding free_elem
  collect_step time_ms b t events u v pos low due c =
      let (d, w) = freed_pop t.delay t.s_heap v pos in
      record {
        valid = c.valid;
        same_delay = c.same_delay;
        same_task = c.same_task;
        later = c.later;
        due = (due, c.due);
        ascending = (low, c.ascending);
        bag = λ x. omega (arith, c.bag x, d.bag x);
        dangling = omega (arith, c.dangling, w);
      }

  -- The loop collects the due events in order, and leaves exactly the others.
  pub collect_loop-Collected :
      (fuel time_ms b : ℕ) (pending : List Task) (t : NetworkThread Task)
      → t.s_heap.n < fuel
      → IsValid t.delay t.s_heap
      → ((i : ℕ) → i < t.s_heap.n → b ≤ t.delay (t.s_heap.p i))
      → let r = collect_loop fuel time_ms pending t in
        (events : List ℕ) × (r.1 ≡ pending ++ map t.task events) × Collected time_ms b t events r.0
  unfolding collect_loop min_heap_empty
  collect_loop-Collected zero time_ms b pending t f v low = absurd (omega arith)
  collect_loop-Collected (suc fuel) time_ms b pending t f v low =
      elim (Bool-cases (0 == t.s_heap.n)) [
        | inl empty ↦ rw empty ([], sym (append-nil pending), stop (λ i l. absurd (ground arith)))
        | inr more ↦ elim (Bool-cases (leb (t.delay (t.s_heap.p 0)) time_ms)) [
          | inl due ↦
              let e = t.s_heap.p 0 in
              let pos : 0 < t.s_heap.n = ground arith in
              let (d, w) = freed_pop t.delay t.s_heap v pos in
              let least = λ (i : ℕ) (l : i < t.s_heap.n).
                root_least t.delay (suc i) t.s_heap v.order i (omega arith) l in
              let next = record t { s_heap = (min_heap_pop t.delay (free_elem e t.s_heap)).0 } in
              let ih =
                collect_loop-Collected fuel time_ms (t.delay e) (pending ++ t.task e ∷ []) next
                  (shorter e d) d.valid
                  (Removed-bound t.delay _ e next.s_heap (t.delay e) d
                    (unfold free_elem in least)) in
              let (events, q, c) = ih in
              rw (more, due)
                (
                  e ∷ events,
                  q ∙ append_assoc pending (t.task e ∷ []) _,
                  collect_step time_ms b t events _ v pos (low 0 pos) (ground arith) c,
                )
          | inr late ↦
              rw (more, late)
                (
                  [],
                  sym (append-nil pending),
                  stop (λ i l. ground (arith, root_least t.delay (suc i) t.s_heap v.order i)),
                )
        ]
      ]
    where
      shorter :
          (e : ℕ)
          → Removed t.delay (free_elem e t.s_heap) e (min_heap_pop t.delay (free_elem e t.s_heap)).0
          → (min_heap_pop t.delay (free_elem e t.s_heap)).0.n < fuel
      shorter e d = unfold free_elem in omega (arith, d.fewer)

      stop :
          ((i : ℕ) → i < t.s_heap.n → time_ms < t.delay (t.s_heap.p i)) → Collected time_ms b t [] t
      stop later = record {
        valid = v;
        same_delay = refl;
        same_task = refl;
        later = later;
        due = tt;
        ascending = tt;
        bag = λ x. omega arith;
        dangling = omega arith;
      }
