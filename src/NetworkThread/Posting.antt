-- ===== src/NetworkThread/Posting.antt =====
-- What a post does to the thread of tcp/network_thread.cc, with the result of min_heap_push.
use tcp_congestion_mininet.Common.{
  ℕ, ◌+◌, ◌%◌, ◌<◌, ◌≡◌, ◌≢◌, refl, sym, subst, arith, Bool, ◌==◌, if◌then◌else◌, inl, inr, update,
}
use tcp_congestion_mininet.Common.Words.{u64_mod}
use tcp_congestion_mininet.Heap.{MinHeap}
use tcp_congestion_mininet.Heap.Order.{IsValid}
use tcp_congestion_mininet.Heap.Push.{min_heap_push_cases}
use tcp_congestion_mininet.NetworkThread.{NetworkThread, new_event, post_delayed_task}
use tcp_congestion_mininet.NetworkThread.Post.{events_of, new_event-IsValid}
use tcp_congestion_mininet.NetworkThread.Shared.{is_pushed}

-- The two ends of a post.
pub record Posted (now event time_ms : ℕ) (t u : NetworkThread ℕ) (pushed : Bool) : Type 0 where
  pub valid : IsValid u.delay u.s_heap
  pub bag :
      (x : ℕ)
      → events_of u x ≡ events_of t x + (if pushed then (if event == x then 1 else 0) else 0)
  pub same_delay : u.delay ≡ update t.delay event ((now + time_ms) % u64_mod)
  pub same_task : u.task ≡ update t.task event event

pub post-Posted :
    (realloc : ℕ → Bool) (now event time_ms : ℕ) (t : NetworkThread ℕ)
    → IsValid t.delay t.s_heap
    → t.s_heap.n + 1 < 0x80000000
    → ((i : ℕ) → i < t.s_heap.n → t.s_heap.p i ≢ event)
    → Posted now event time_ms t
        (post_delayed_task realloc now event event time_ms t)
        (is_pushed realloc now event time_ms t)
unfolding post_delayed_task is_pushed
post-Posted realloc now event time_ms t v small fresh =
    let w = new_event event ((now + time_ms) % u64_mod) event t in
    let valid = new_event-IsValid t event ((now + time_ms) % u64_mod) event v fresh in
    let is : MinHeap × Bool → Type 0 =
      λ (h, b). Posted now event time_ms t (record w { s_heap = h }) b in
    unfold new_event in
    elim (min_heap_push_cases w.delay w.s_heap event valid fresh realloc small) [
      | inl (no_room, e) ↦
          subst is (sym e)
            (record { valid = valid; bag = λ x. omega arith; same_delay = refl; same_task = refl })
      | inr (r, e, d) ↦
          subst is (sym e)
            (record { valid = d.valid; bag = d.bag; same_delay = refl; same_task = refl })
    ]
