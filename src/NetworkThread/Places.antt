-- ===== src/NetworkThread/Places.antt =====
-- Every task posted to a thread of tcp/network_thread.cc is in one place, and runs when it is due.
use tcp_congestion_mininet.Common.{
  ℕ, ◌+◌, ◌≤◌, ◌<◌, ◌≡◌, ◌≢◌, refl, ap, ap₂, ◌∙◌, arith, Bool, true, false, ◌==◌, List, [], ◌∷◌,
  if◌then◌else◌, map,
}
use native.Mathlib.Decide.{dec_lt}
use tcp_congestion_mininet.Common.Bag.{occurrences}
use tcp_congestion_mininet.Common.Lists.{All}
use tcp_congestion_mininet.Heap.{MinHeap, min_heap_ctor}
use tcp_congestion_mininet.Heap.Order.{count, count_here, count_absent, IsValid}
use tcp_congestion_mininet.NetworkThread.{NetworkThread, post_delayed_task, new_network_thread}
use tcp_congestion_mininet.NetworkThread.Process.{Collected, collect_loop-Collected}
use tcp_congestion_mininet.NetworkThread.Post.{events_of}
use tcp_congestion_mininet.NetworkThread.Shared.{
  Shared, is_pushed, collected, Step, post, collect, run_one, start, Reach, here, later,
}
use tcp_congestion_mininet.NetworkThread.Posting.{Posted, post-Posted}

pub record IsShared (s : Shared) : Type 0 where
  pub valid : IsValid s.thread.delay s.thread.s_heap
  pub own : (x : ℕ) → 0 < occurrences s.posted x → s.thread.task x ≡ x
  pub places :
      (x : ℕ)
      → events_of s.thread x + occurrences s.pending x + occurrences s.ran x + occurrences s.lost x
        ≡ occurrences s.posted x
  pub once : (x : ℕ) → occurrences s.posted x ≤ 1
  pub due : (x : ℕ) → 0 < occurrences s.pending x + occurrences s.ran x → s.thread.delay x ≤ s.clock

-- What is posted anew stands nowhere.
absent :
    (s : Shared) (event : ℕ)
    → IsShared s
    → occurrences s.posted event ≡ 0
    → (i : ℕ) → i < s.thread.s_heap.n
    → s.thread.s_heap.p i ≢ event
absent s event v new i l e = omega (
  arith,
  v.places event,
  new,
  count_here s.thread.s_heap.n s.thread.s_heap.p i l,
  ap (count s.thread.s_heap.n s.thread.s_heap.p) e,
)

post-IsShared :
    (realloc : ℕ → Bool) (now event time_ms : ℕ) (s : Shared)
    → occurrences s.posted event ≡ 0
    → s.thread.s_heap.n + 1 < 0x80000000
    → IsShared s
    → IsShared (record s {
      thread = post_delayed_task realloc now event event time_ms s.thread;
      posted = event ∷ s.posted;
      lost = if is_pushed realloc now event time_ms s.thread then s.lost else event ∷ s.lost;
    })
post-IsShared realloc now event time_ms s new small v =
    go (post_delayed_task realloc now event event time_ms s.thread)
      (is_pushed realloc now event time_ms s.thread)
      (post-Posted realloc now event time_ms s.thread v.valid small (absent s event v new))
  where
    go :
        (u : NetworkThread ℕ) (pushed : Bool)
        → Posted now event time_ms s.thread u pushed
        → IsShared (record s {
          thread = u;
          posted = event ∷ s.posted;
          lost = if pushed then s.lost else event ∷ s.lost;
        })
    go u pushed d = record {
      valid = d.valid;
      own = λ x h. ap (λ f. f x) d.same_task ∙ ground (arith, v.own x);
      places = λ x. place pushed x (d.bag x);
      once = λ x. ground (arith, v.once x, new);
      due = λ x h. ground (arith, ap (λ f. f x) d.same_delay, v.due x, v.places x, new);
    }
      where
        place :
            (pushed : Bool) (x : ℕ)
            → events_of u x
              ≡ events_of s.thread x + (if pushed then (if event == x then 1 else 0) else 0)
            → events_of u x
                + occurrences s.pending x
                + occurrences s.ran x
                + occurrences (if pushed then s.lost else event ∷ s.lost) x
              ≡ occurrences s.posted x + (if event == x then 1 else 0)
        place true x e = omega (arith, e, v.places x)
        place false x e = omega (arith, e, v.places x)

-- A list of events, whose tasks bear their numbers.
map-own :
    (task : ℕ → ℕ) (events : List ℕ)
    → ((x : ℕ) → 0 < occurrences events x → task x ≡ x)
    → map task events ≡ events
map-own task [] h = refl
map-own task (e ∷ es) h =
    ap₂ ◌∷◌ (h e (ground arith)) (map-own task es (λ x l. h x (omega (arith, l))))

due_member :
    (delay : ℕ → ℕ) (time_ms : ℕ) (events : List ℕ) (x : ℕ)
    → All (λ e. delay e ≤ time_ms) events
    → 0 < occurrences events x
    → delay x ≤ time_ms
due_member delay time_ms [] x a h = absurd (omega arith)
due_member delay time_ms (e ∷ es) x (le, a) h = ground (arith, due_member delay time_ms es x a)

collect-IsShared :
    (time_ms : ℕ) (s : Shared)
    → s.pending ≡ []
    → s.clock ≤ time_ms
    → IsShared s
    → IsShared (collected time_ms s)
collect-IsShared time_ms s none_left later_ v =
    let (events, q, c) =
      collect_loop-Collected (s.thread.s_heap.n + 1) time_ms 0 [] s.thread (omega arith) v.valid
        (λ i l. omega arith) in
    go _ _ events q c
  where
    go :
        (u : NetworkThread ℕ) (pending events : List ℕ)
        → pending ≡ map s.thread.task events
        → Collected time_ms 0 s.thread events u
        → IsShared (record s { thread = u; pending = pending; clock = time_ms })
    go u pending events q c =
        let empty : (x : ℕ) → occurrences s.pending x ≡ 0 =
          λ x. ap (λ l. occurrences l x) none_left in
        let same : pending ≡ events =
          q
          ∙ map-own s.thread.task events (λ x h. v.own x (omega (arith, h, c.bag x, v.places x))) in
        let here_ : (x : ℕ) → occurrences pending x ≡ occurrences events x =
          λ x. ap (λ l. occurrences l x) same in
        record {
          valid = c.valid;
          own = λ x h. ap (λ f. f x) c.same_task ∙ v.own x h;
          places = λ x. omega (arith, here_ x, empty x, c.bag x, v.places x);
          once = v.once;
          due = λ x h. omega (arith, ap (λ f. f x) c.same_delay, is_due c x (here_ x) (empty x) h);
        }
      where
        is_due :
            Collected time_ms 0 s.thread events u
            → (x : ℕ) → occurrences pending x ≡ occurrences events x
            → occurrences s.pending x ≡ 0
            → 0 < occurrences pending x + occurrences s.ran x
            → s.thread.delay x ≤ time_ms
        is_due c x e n h = elim (dec_lt 0 (occurrences events x)) [
          | yes l ↦ due_member s.thread.delay time_ms events x c.due l
          | no l ↦ omega (arith, v.due x (omega (arith, e, n, h)))
        ]

run_one-IsShared :
    (task : ℕ) (rest : List ℕ) (s : Shared)
    → s.pending ≡ task ∷ rest
    → IsShared s
    → IsShared (record s { pending = rest; ran = task ∷ s.ran })
run_one-IsShared task rest s e v =
    let head : (x : ℕ)
        → occurrences s.pending x ≡ occurrences rest x + (if task == x then 1 else 0) =
      λ x. ap (λ l. occurrences l x) e in
    record {
      valid = v.valid;
      own = v.own;
      places = λ x. omega (arith, head x, v.places x);
      once = v.once;
      due = λ x h. v.due x (omega (arith, head x, h));
    }

start-IsShared : (delay task : ℕ → ℕ) (memory : MinHeap) → IsShared (start delay task memory)
unfolding min_heap_ctor new_network_thread
start-IsShared delay task memory = record {
  valid = record {
    order = λ c p q. absurd (omega arith);
    indexed = λ i h. absurd (omega arith);
    room = omega arith;
    small = omega arith;
  };
  own = λ x h. absurd (omega arith);
  places = λ x. omega (arith, count_absent 0 (λ _. 0) x (λ i h. absurd (omega arith)));
  once = λ x. omega arith;
  due = λ x h. absurd (omega arith);
}

pub Step-IsShared : (realloc : ℕ → Bool) {s t : Shared} → Step realloc s t → IsShared s → IsShared t
Step-IsShared realloc {s = s} (post now event time_ms new small) v =
    post-IsShared realloc now event time_ms s new small v
Step-IsShared realloc {s = s} (collect time_ms none_left later_) v =
    collect-IsShared time_ms s none_left later_ v
Step-IsShared realloc {s = s} (run_one task rest e) v = run_one-IsShared task rest s e v

-- Whatever the order in which threads post, at event numbers that were not used before and with
-- room in the heap's counter, and the network thread collects, by a clock that does not go back,
-- and runs, from an empty thread on: the heap is valid, each task that was posted is in one place
-- (the heap, the list pending_tasks, the tasks run, or those lost because the heap could not
-- grow), once, and no task was collected or run before its time.
pub Reach-IsShared :
    (realloc : ℕ → Bool) (delay task : ℕ → ℕ) (memory : MinHeap) {s : Shared}
    → Reach realloc (start delay task memory) s
    → IsShared s
Reach-IsShared realloc delay task memory here = start-IsShared delay task memory
Reach-IsShared realloc delay task memory (later r step) =
    Step-IsShared realloc step (Reach-IsShared realloc delay task memory r)
