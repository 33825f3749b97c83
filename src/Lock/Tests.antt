-- ===== src/Lock/Tests.antt =====
-- Two threads at the lock of base/lock.h.
use tcp_congestion_mininet.Common.{ℕ, ◌≤◌, ◌≡◌, refl, arith, List, [], ◌∷◌}
use tcp_congestion_mininet.Lock.{
  Place, outside, entering, inside, turn, step, run, try_enter, atomic_cas,
}
use tcp_congestion_mininet.Lock.Exclusion.{holders, run-holders}

abbrev schedule : List ℕ
schedule = 0 ∷ 1 ∷ 1 ∷ 0 ∷ []

abbrev threads : List Place
threads = outside ∷ outside ∷ []

-- The second thread gets in, and the first one has to wait.
schedule_ends : run schedule 0 threads ≡ (1, entering ∷ inside ∷ [])
unfolding run step turn try_enter atomic_cas
schedule_ends = refl

run-holders_example :
    (holders (run schedule 0 threads).1 ≡ (run schedule 0 threads).0)
    × (holders (run schedule 0 threads).1 ≤ 1)
run-holders_example = run-holders schedule 0 threads refl (omega arith)
