-- ===== src/Echo/Program.antt =====
-- The main loop of echo_client.cc and echo_server.cc over the states of a program, which calls Decrease in
-- some of its rounds.
use tcp_congestion_mininet.Common.{
  ℕ, ◌-◌, ◌≤◌, ◌<◌, ◌≡◌, ◌≢◌, refl, ap, ◌∙◌, arith, inl, inr, ◌⊎◌, Bool, true, false, not, List, [],
  ◌∷◌, if◌then◌else◌,
}
use tcp_congestion_mininet.Common.Int.{pos, is_positive}
use tcp_congestion_mininet.Echo.{
  Exit, signalled, all_deactive, still_running, decrease_times, is_all_deactive,
}
use tcp_congestion_mininet.Echo.Loop.{positive_count, decrease_times_lem}

-- What a program is to its main loop: the calls of Decrease up to a state, and what one LoopOnce can do.
pub record Program (S : Type 0) : Type 1 where
  pub calls : S → ℕ
  pub LoopOnce : S → S → Type 0

-- What LoopOnce keeps.
pub record IsKept {S : Type 0} (P : Program S) (IsGood : S → Type 0) : Type 0 where
  pub keeps : {s t : S} → P.LoopOnce s t → IsGood s → IsGood t

-- IsAllDeactive on a counter that started at `flows`.
pub is_all_deactive_lem :
    (calls flows : ℕ)
    → ((flows ≤ calls) × (is_all_deactive (decrease_times calls (pos flows)) ≡ true))
      ⊎ ((calls < flows) × (is_all_deactive (decrease_times calls (pos flows)) ≡ false))
unfolding is_all_deactive
is_all_deactive_lem calls flows = elim (decrease_times_lem calls flows) [
  | inl (h, e) ↦
      inr
        (h, ap (λ z. not (is_positive z)) e ∙ ap not (positive_count (flows - calls) (omega arith)))
  | inr (h, e) ↦ inl (h, ap not e)
]

module _ {S : Type 0} (calls : S → ℕ) (flows : ℕ) where
  -- The rounds: what m_running is before each, and the state that its LoopOnce leaves.
  unfoldable pub main_states : List (Bool × S) → S → Exit × S
  main_states [] s = (still_running, s)
  main_states ((running, t) ∷ rounds) s =
      let rest = main_states rounds t in
      if running
      then (if is_all_deactive (decrease_times (calls t) (pos flows))
          then (all_deactive, t)
          else rest)
      else (signalled, s)

module _ {S : Type 0} (P : Program S) (flows : ℕ) where
  abbrev pub IsPlayed : List (Bool × S) → S → Type 0
  IsPlayed [] s = Unit {0}
  IsPlayed ((running, t) ∷ rounds) s = P.LoopOnce s t × IsPlayed rounds t

  module _ (IsGood : S → Type 0) where
    -- How the loop ends.
    pub record Ended (x : Exit) (s : S) : Type 0 where
      pub good : IsGood s
      pub counted :
          ((x ≡ all_deactive) × (flows ≤ P.calls s)) ⊎ ((x ≢ all_deactive) × (P.calls s < flows))

    pub main_states-Ended :
        IsKept P IsGood
        → (rounds : List (Bool × S)) (s : S) → IsGood s
        → P.calls s < flows
        → IsPlayed rounds s
        → Ended (main_states P.calls flows rounds s).0 (main_states P.calls flows rounds s).1
    unfolding main_states
    main_states-Ended k [] s g h p = record { good = g; counted = inr (λ e. cc e, h) }
    main_states-Ended k ((false, t) ∷ rounds) s g h p = record {
      good = g;
      counted = inr (λ e. cc e, h);
    }
    main_states-Ended k ((true, t) ∷ rounds) s g h (step, p) =
        let good = k.keeps step g in
        elim (is_all_deactive_lem (P.calls t) flows) [
          | inl (all, e) ↦ rw e (record { good = good; counted = inl (refl, all) })
          | inr (some_left, e) ↦ rw e (main_states-Ended k rounds t good some_left p)
        ]
