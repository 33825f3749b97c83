-- ===== src/Closure/Tests.antt =====
-- A task with a cleanup, and one without.
use tcp_congestion_mininet.Common.{ℕ, List, [], ◌∷◌, ◌++◌, ◌≡◌, refl}
use tcp_congestion_mininet.Closure.{
  new_closure, new_closure_with_cleanup, run, destroy, run_once, run_all,
}

abbrev note : ℕ → List ℕ → List ℕ
note n log = log ++ n ∷ []

-- The state is the list of what ran.
order :
    run_all (new_closure_with_cleanup (note 1) (note 2) ∷ new_closure (note 3) ∷ []) []
    ≡ 1 ∷ 2 ∷ 3 ∷ []
unfolding run_all run_once run destroy
order = refl
