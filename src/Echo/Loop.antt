-- ===== src/Echo/Loop.antt =====
-- When the main loops of echo_client.cc and echo_server.cc end.
use tcp_congestion_mininet.Common.{
  ℕ, zero, suc, ◌+◌, ◌-◌, ◌≤◌, ◌<◌, ◌≡◌, refl, ap, ◌∙◌, arith, inl, inr, ◌⊎◌, Bool, true, false,
  List, [], ◌∷◌,
}
use tcp_congestion_mininet.Common.Int.{pos, negsuc, is_positive}
use tcp_congestion_mininet.Echo.{
  all_deactive, still_running, decrease, decrease_times, is_all_deactive, main_loop,
}

-- The calls of Decrease in the rounds.
abbrev pub decreases : List (Bool × ℕ) → ℕ
decreases [] = 0
decreases ((running, n) ∷ rounds) = n + decreases rounds

abbrev pub IsRunning : List (Bool × ℕ) → Type 0
IsRunning [] = Unit {0}
IsRunning ((running, n) ∷ rounds) = (running ≡ true) × IsRunning rounds

decrease_times-below : (n m : ℕ) → is_positive (decrease_times n (negsuc m)) ≡ false
unfolding decrease_times decrease
decrease_times-below zero m = refl
decrease_times-below (suc n) m = decrease_times-below n (suc m)

pub positive_count : (k : ℕ) → 0 < k → is_positive (pos k) ≡ true
positive_count zero h = absurd (omega arith)
positive_count (suc k) h = refl

-- Either the counter stays above zero, or it is not positive any more.
pub decrease_times_lem :
    (n m : ℕ)
    → ((n < m) × (decrease_times n (pos m) ≡ pos (m - n)))
      ⊎ ((m ≤ n) × (is_positive (decrease_times n (pos m)) ≡ false))
unfolding decrease_times decrease
decrease_times_lem zero zero = inr (omega arith, refl)
decrease_times_lem zero (suc m) = inl (omega arith, ap pos (omega arith))
decrease_times_lem (suc n) zero = inr (omega arith, decrease_times-below n 0)
decrease_times_lem (suc n) (suc m) = elim (decrease_times_lem n m) [
  | inl (h, e) ↦ inl (omega arith, e ∙ ap pos (omega arith))
  | inr (h, e) ↦ inr (omega arith, e)
]

-- With at least one flow and no signal, the main loop ends by its counter if Decrease was called
-- as often as there are flows, and goes on if it was called less often.
pub main_loop_lem :
    (rounds : List (Bool × ℕ)) (clients : ℕ)
    → 0 < clients
    → IsRunning rounds
    → ((clients ≤ decreases rounds) × (main_loop rounds (pos clients) ≡ all_deactive))
      ⊎ ((decreases rounds < clients) × (main_loop rounds (pos clients) ≡ still_running))
unfolding main_loop is_all_deactive
main_loop_lem [] clients h run = inr (h, refl)
main_loop_lem ((running, n) ∷ rounds) clients h (run, later) = elim (decrease_times_lem n clients) [
  | inr (enough, out) ↦ inl (omega arith, rw run (rw out refl))
  | inl (some_left, e) ↦
      let left : is_positive (decrease_times n (pos clients)) ≡ true =
        ap is_positive e ∙ positive_count (clients - n) (omega arith) in
      elim (main_loop_lem rounds (clients - n) (omega arith) later) [
        | inl (enough, exits) ↦
            inl (omega arith, rw run (rw left (ap (main_loop rounds) e ∙ exits)))
        | inr (short, goes_on) ↦
            inr (omega arith, rw run (rw left (ap (main_loop rounds) e ∙ goes_on)))
      ]
]
