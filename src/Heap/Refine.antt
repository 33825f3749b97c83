-- ===== src/Heap/Refine.antt =====
-- The heap of base/min_heap.h serves as the abstract queue of Heap/Queue.
use tcp_congestion_mininet.Common.{
  ℕ, zero, suc, ◌+◌, ◌≤◌, ◌<◌, ◌≡◌, ◌≢◌, refl, ap, sym, ◌∙◌, true, false, none, some, arith, ◌==◌,
  if◌then◌else◌, Bool, inl, inr, List, [], ◌∷◌, Option, subst,
}
use tcp_congestion_mininet.Common.Lists.{length}
use tcp_congestion_mininet.Common.Bag
use tcp_congestion_mininet.Common.Bag.{
  Bag, of_list, empty, units, put, occurrences, units-of_list, units-put,
}
use tcp_congestion_mininet.Heap.{MinHeap, min_heap_erase, erase_at}
use tcp_congestion_mininet.Heap.Order.{count, count_somewhere, count_zero, Pushed, Removed}
use native.Mathlib.Decide.{ℕ_discrete}
use tcp_congestion_mininet.Heap.Push.{min_heap_reserve-none, min_heap_push_cases}
use tcp_congestion_mininet.Heap.Remove.{
  min_heap_pop_cases, min_heap_erase-Removed, min_heap_pop-state,
}
use tcp_congestion_mininet.Heap.Outside.{min_heap_push-outside, pop_top-outside, erase_at-outside}
use tcp_congestion_mininet.Heap.Queue.{
  Call, push, pop, erase, Answer, done, taken, Allowed, pushed, no_room, nothing, least, erased,
  unknown, AllowedRun, quiet, next, IsAsked, slots, view, call, run, IsQueue, IsCareful,
}

occurrences-slots : (x n : ℕ) (p : ℕ → ℕ) → occurrences (slots n p) x ≡ count n p x
unfolding slots count
occurrences-slots x zero p = refl
occurrences-slots x (suc n) p = omega (arith, occurrences-slots x n p)

pub units-view : (x : ℕ) (s : MinHeap) → units x (view s) ≡ count s.n s.p x
unfolding view
units-view x s = units-of_list x (slots s.n s.p) ∙ occurrences-slots x s.n s.p

view_same : (s t : MinHeap) → ((x : ℕ) → count t.n t.p x ≡ count s.n s.p x) → view t ≡ view s
view_same s t h = Bag.ext (view t) (view s) (λ x. units-view x t ∙ h x ∙ sym (units-view x s))

view_more :
    (e : ℕ) (s t : MinHeap)
    → ((x : ℕ) → count t.n t.p x ≡ count s.n s.p x + (if e == x then 1 else 0))
    → view t ≡ put e (view s)
view_more e s t h =
    Bag.ext (view t) (put e (view s))
      (λ x. omega (arith, units-view x t, h x, units-put x e (view s), units-view x s))

no_slots : (s : MinHeap) → s.n ≡ 0 → view s ≡ empty
unfolding view slots
no_slots s e = ap (λ n. of_list (slots n s.p)) e

kept_at :
    {A : Type 0} {w : MinHeap × A} {r : MinHeap} {a : A} {i : Option ℕ}
    → w ≡ (r, a)
    → (x : ℕ) → w.0.min_heap_idx x ≡ i
    → r.min_heap_idx x ≡ i
kept_at {i = i} at x h = subst (λ (t : MinHeap). t.min_heap_idx x ≡ i) (ap (λ v. v.0) at) h

min_heap_erase-state :
    (key : ℕ → ℕ) (s : MinHeap) (i : ℕ)
    → s.min_heap_idx (s.p i) ≡ some i
    → (min_heap_erase key (s.p i) s).0 ≡ erase_at key i (s.p i) s
unfolding min_heap_erase
min_heap_erase-state key s i e = rw (e, min_heap_erase) refl

min_heap_erase-unknown :
    (key : ℕ → ℕ) (s : MinHeap) (e : ℕ)
    → s.min_heap_idx e ≡ none
    → min_heap_erase key e s ≡ (s, false)
unfolding min_heap_erase
min_heap_erase-unknown key s e h = rw (h, min_heap_erase) refl

module _ (realloc : ℕ → Bool) (key : ℕ → ℕ) where
  Pushed-IsQueue :
      (e : ℕ) (s r : MinHeap)
      → IsQueue key s
      → Pushed key s e r
      → ((x : ℕ) → x ≢ e → ((i : ℕ) → i < s.n → s.p i ≢ x) → r.min_heap_idx x ≡ s.min_heap_idx x)
      → IsQueue key r
  Pushed-IsQueue e s r q d kept = record {
    valid = d.valid;
    known = λ x h.
        let away : count s.n s.p x ≡ 0 = omega (arith, h, d.bag x) in
        kept x (λ i. ground (arith, h, d.bag x)) (count_zero s.n s.p x away) ∙ q.known x away;
  }

  Removed-IsQueue :
      (e : ℕ) (s r : MinHeap)
      → IsQueue key s
      → Removed key s e r
      → ((x : ℕ) → x ≢ e → ((i : ℕ) → i < s.n → s.p i ≢ x) → r.min_heap_idx x ≡ s.min_heap_idx x)
      → IsQueue key r
  Removed-IsQueue e s r q d kept = record {
    valid = d.valid;
    known = λ x h. elim (ℕ_discrete x e) [
      | yes i ↦ ap r.min_heap_idx i ∙ d.unnamed
      | no i ↦
          let away : count s.n s.p x ≡ 0 = ground (arith, h, d.bag x) in
          kept x i (count_zero s.n s.p x away) ∙ q.known x away
    ];
  }

  -- What one call owes: an allowed answer, and a queue that grew by one at most.
  abbrev Serves : Call → MinHeap → MinHeap × Answer → Type 0
  Serves c s (t, r) = Allowed realloc key (view s) c r (view t) × IsQueue key t × (t.n ≤ s.n + 1)

  push-Serves :
      (e : ℕ) (s : MinHeap)
      → IsQueue key s
      → s.n + 1 < 0x80000000
      → units e (view s) ≡ 0
      → Serves (push e) s (call realloc key (push e) s)
  unfolding call
  push-Serves e s q b new =
      let away = count_zero s.n s.p e (sym (units-view e s) ∙ new) in
      let is : MinHeap × Bool → Type 0 = λ (t, r). Serves (push e) s (t, done r) in
      elim (min_heap_push_cases key s e q.valid away realloc b) [
        | inl (f, at) ↦
            let (asked, refused) = min_heap_reserve-none realloc (s.n + 1) s f in
            subst is (sym at) (no_room e asked (view s) refused, q, omega arith)
        | inr (r, at, d) ↦ subst is (sym at) (
          subst (Allowed realloc key (view s) (push e) (done true)) (sym (view_more e s r d.bag))
              (pushed e (view s)),
          Pushed-IsQueue e s r q d
              (λ x ne out. kept_at at x (min_heap_push-outside key realloc e x s b ne out)),
          omega (arith, d.more),
        )
      ]

  pop-Serves :
      (s : MinHeap) → IsQueue key s → s.n < 0x7fffffff → Serves pop s (call realloc key pop s)
  unfolding call
  pop-Serves s q b =
      let is : MinHeap × Option ℕ → Type 0 = λ (t, r). Serves pop s (t, taken r) in
      elim (min_heap_pop_cases key s q.valid) [
        | inl (e, at) ↦ subst is (sym at) (
          subst (λ v. Allowed realloc key v pop (taken none) v) (sym (no_slots s e)) nothing,
          q,
          omega arith,
        )
        | inr (r, at, d, low) ↦
            let pos : 0 < s.n = omega (arith, d.fewer) in
            subst is (sym at) (
              subst (λ v. Allowed realloc key v pop (taken (some (s.p 0))) (view r))
                  (sym (view_more (s.p 0) r s (λ x. sym (d.bag x))))
                  (least (s.p 0) (view r) (λ x h.
                    let (i, l, at_x) =
                      count_somewhere s.n s.p x (omega (arith, units-view x r, h, d.bag x)) in
                    subst (λ y. key (s.p 0) ≤ key y) at_x (low i l))),
              Removed-IsQueue (s.p 0) s r q d (λ x ne out. kept_at at x (
                  ap (λ (t : MinHeap). t.min_heap_idx x) (min_heap_pop-state key s pos)
                  ∙ pop_top-outside key x s b pos out)),
              omega (arith, d.fewer),
            )
      ]

  erase-Serves :
      (e : ℕ) (s : MinHeap)
      → IsQueue key s
      → s.n < 0x7fffffff
      → Serves (erase e) s (call realloc key (erase e) s)
  unfolding call
  erase-Serves e s q b = elim (ℕ_discrete (count s.n s.p e) 0) [
    | yes away ↦
        subst is (sym (min_heap_erase-unknown key s e (q.known e away)))
          (unknown e (view s) (units-view e s ∙ away), q, omega arith)
    | no some_ ↦
        let (i, l, at_e) = count_somewhere s.n s.p e (omega arith) in
        let (r, at, d) = min_heap_erase-Removed key s i q.valid l in
        subst (λ x. Serves (erase x) s (call realloc key (erase x) s)) at_e
          (subst (λ ((t, w) : MinHeap × Bool). Serves (erase (s.p i)) s (t, done w)) (sym at)
            (
              subst (λ v. Allowed realloc key v (erase (s.p i)) (done true) (view r))
                  (sym (view_more (s.p i) r s (λ x. sym (d.bag x)))) (erased (s.p i) (view r)),
              Removed-IsQueue (s.p i) s r q d (λ x ne out. kept_at at x (
                  ap (λ (t : MinHeap). t.min_heap_idx x)
                    (min_heap_erase-state key s i (q.valid.indexed i l))
                  ∙ erase_at-outside key i (s.p i) x s b l ne out)),
              omega (arith, d.fewer),
            ))
  ]
    where
      is : MinHeap × Bool → Type 0
      is (t, r) = Serves (erase e) s (t, done r)

  pub call-Serves :
      (c : Call) (s : MinHeap)
      → IsQueue key s
      → s.n + 1 < 0x7fffffff
      → IsAsked (view s) c
      → Serves c s (call realloc key c s)
  call-Serves (push e) s q b asked = push-Serves e s q (omega arith) asked
  call-Serves pop s q b asked = pop-Serves s q (omega arith)
  call-Serves (erase e) s q b asked = erase-Serves e s q (omega arith)

  -- Any sequence of pushes, pops and erases on a valid heap, where elements outside of it have no
  -- index, with pushes only of elements that are not in the heap, and with fewer than 2 ^ 31 - 1
  -- elements and calls in all: the answers and the bag of the elements that remain are those that
  -- the abstract queue allows, where a push adds its element, or does not if the allocator
  -- refuses, a pop takes out a least element, or none of an empty bag, and an erase takes out its
  -- element, or nothing if it is not there. The heap stays valid, and elements outside of it have
  -- no index.
  pub run-AllowedRun :
      (cs : List Call) (s : MinHeap)
      → IsQueue key s
      → s.n + length cs < 0x7fffffff
      → IsCareful realloc key cs s
      → AllowedRun realloc key (view s) cs (run realloc key cs s).1 (view (run realloc key cs s).0)
        × IsQueue key (run realloc key cs s).0
  unfolding run call IsCareful
  run-AllowedRun [] s q b h = (quiet (view s), q)
  run-AllowedRun (c ∷ cs) s q b (asked, h) =
      let (ok, u, small) = call-Serves c s q (omega arith) asked in
      let (rest, v) = run-AllowedRun cs (call realloc key c s).0 u (omega (arith, small)) h in
      (next ok rest, v)
