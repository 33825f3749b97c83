-- ===== src/BaseThread/Current.antt =====
-- Which thread of base/base_thread.cc is current, and where.
use tcp_congestion_mininet.Common.{
  ℕ, ◌≡◌, ◌≢◌, refl, ap, ◌∙◌, arith, Bool, true, false, none, some, ◌&&◌, ◌==◌, if◌then◌else◌,
}
use tcp_congestion_mininet.BaseThread.{
  ThreadManager, BaseThread, current_thread, set_current_thread, is_current, run, thread_fun,
}

-- A function that asks IsCurrent of its own thread is told yes, in the system thread that runs it,
-- if there is a function and the thread was not stopped; otherwise it is not called. Afterwards the
-- thread is still current there, and every other system thread keeps the one it had.
pub thread_fun-is_current :
    (self other : ℕ) (f : Bool → ℕ → ℕ) (t : BaseThread) (m : ThreadManager)
    → other ≢ self
    → let asking : ThreadManager → ℕ → ℕ = λ n. f (is_current self n t) in
      let (d, n) = thread_fun self asking t m in
      (d.ran ≡ (if t.has_fun && t.running then f true t.ran else t.ran))
      × (is_current self n t ≡ true)
      × (current_thread other n ≡ current_thread other m)
unfolding is_current thread_fun current_thread set_current_thread run
thread_fun-is_current self other f t m ne = (
  asked (t.has_fun && t.running),
  here,
  ap (λ b. if b then some t.address else m.key other) (differ other self ne),
)
  where
    same : (n : ℕ) → (n == n) ≡ true
    same n = ground arith

    differ : (a b : ℕ) → a ≢ b → (a == b) ≡ false
    differ a b h = ground arith

    here : is_current self (set_current_thread self t.address m) t ≡ true
    here =
        ap
          (λ b. elim (if b then some t.address else m.key self) [
            | none ↦ false
            | some x ↦ t.address == x
          ])
          (same self)
        ∙ same t.address

    asked :
        (b : Bool)
        → let n = set_current_thread self t.address m in
          let r : BaseThread = if b then record t { ran = f (is_current self n t) t.ran } else t in
          r.ran ≡ (if b then f true t.ran else t.ran)
    asked true = ap (λ b. f b t.ran) here
    asked false = refl
