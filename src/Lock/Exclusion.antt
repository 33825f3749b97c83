-- ===== src/Lock/Exclusion.antt =====
-- The lock of base/lock.h keeps all threads but one out.
use tcp_congestion_mininet.Common.{
  ℕ, zero, suc, ◌+◌, ◌≤◌, ◌≡◌, arith, false, List, [], ◌∷◌, subst, suc-eqb-zero,
}
use tcp_congestion_mininet.Lock.{
  Place, outside, entering, inside, leaving, atomic_cas, try_enter, try_leave, turn, step, run,
}

abbrev holds : Place → ℕ
holds outside = 0
holds entering = 0
holds inside = 1
holds leaving = 1

-- The threads that hold the lock: those inside, and those that have not left yet.
abbrev pub holders : List Place → ℕ
holders [] = 0
holders (t ∷ ts) = holds t + holders ts

cas-zero : (word : ℕ) → atomic_cas (suc word) 0 1 ≡ (suc word, false)
unfolding atomic_cas
cas-zero word = rw (suc-eqb-zero word)

turn-holds :
    (word : ℕ) (t : Place) (others : ℕ)
    → holds t + others ≡ word
    → word ≤ 1
    → (holds (turn word t).1 + others ≡ (turn word t).0) × ((turn word t).0 ≤ 1)
unfolding turn try_enter try_leave
turn-holds word outside others e h = (e, h)
turn-holds word inside others e h = (e, h)
turn-holds zero entering others e h = unfold atomic_cas in (omega arith, omega arith)
turn-holds (suc word) entering others e h = rw (cas-zero word) (e, h)
turn-holds word leaving others e h =
    let one : 1 ≡ word = omega arith in
    subst (λ w. (holds (try_leave w).1 + others ≡ (try_leave w).0) × ((try_leave w).0 ≤ 1)) one
      (unfold atomic_cas in (omega arith, omega arith))

step-holds :
    (i word : ℕ) (ts : List Place) (others : ℕ)
    → holders ts + others ≡ word
    → word ≤ 1
    → (holders (step i word ts).1 + others ≡ (step i word ts).0) × ((step i word ts).0 ≤ 1)
unfolding step
step-holds i word [] others e h = (e, h)
step-holds zero word (t ∷ ts) others e h =
    let (a, b) = turn-holds word t (holders ts + others) (omega arith) h in (omega (arith, a), b)
step-holds (suc i) word (t ∷ ts) others e h =
    let (a, b) = step-holds i word ts (holds t + others) (omega arith) h in (omega (arith, a), b)

-- Threads that take turns in any order: where the word of the lock counts those that hold it, it does
-- so afterwards, and it is at most one; so no two threads are inside at once.
pub run-holders :
    (is : List ℕ) (word : ℕ) (ts : List Place)
    → holders ts ≡ word
    → word ≤ 1
    → (holders (run is word ts).1 ≡ (run is word ts).0) × (holders (run is word ts).1 ≤ 1)
unfolding run
run-holders [] word ts e h = (e, omega arith)
run-holders (i ∷ is) word ts e h =
    let (a, b) = step-holds i word ts 0 (omega arith) h in
    run-holders is (step i word ts).0 (step i word ts).1 (omega (arith, a)) b
