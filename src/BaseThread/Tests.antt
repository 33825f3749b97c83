-- ===== src/BaseThread/Tests.antt =====
-- A thread at address 9 that starts as system thread 2.
use tcp_congestion_mininet.Common.{ℕ, Bool, ◌+◌, ◌≡◌, arith, true, if◌then◌else◌}
use tcp_congestion_mininet.BaseThread.{
  ThreadManager, BaseThread, new_thread_manager, new_base_thread, current_thread, is_current,
  thread_fun,
}
use tcp_congestion_mininet.BaseThread.Current.{thread_fun-is_current}

abbrev thread : BaseThread
thread = new_base_thread 9 true

abbrev manager : ThreadManager
manager = new_thread_manager 1

-- A function that counts its calls in which its thread is current.
abbrev counting : Bool → ℕ → ℕ
counting now n = if now then n + 1 else n

thread_fun-is_current_example :
    let (d, n) = thread_fun 2 (λ n. counting (is_current 2 n thread)) thread manager in
    (d.ran ≡ 1) × (is_current 2 n thread ≡ true) × (current_thread 1 n ≡ current_thread 1 manager)
unfolding new_base_thread
thread_fun-is_current_example =
    thread_fun-is_current 2 1 counting thread manager (λ e. absurd (omega arith))
