-- ===== src/Clock/Arithmetic.antt =====
-- The arithmetic of times in base/proto_time.h.
use tcp_congestion_mininet.Common.{
  ℕ, ◌+◌, ◌-◌, ◌*◌, ◌/◌, ◌%◌, ◌≤◌, ◌<◌, ◌≡◌, ap, ◌∙◌, ◌⊎◌, inl, inr, arith, true, false, none, some,
  ltb, lt-ltb,
}
use native.Mathlib.Decide.{dec_le}
use tcp_congestion_mininet.Clock.{
  TimeDelta, ProtoTime, div64, less64, less, later_by, between, from_milliseconds, to_milliseconds,
  base_clock64, now, time_millis, time_micro, get_wall_time, zero_time,
}

-- The order of the bit patterns, moved by 2 ^ 63, is that of the numbers.
shift_inj :
    (a b : ℕ)
    → a < 0x10000000000000000
    → b < 0x10000000000000000
    → (a + 0x8000000000000000) % 0x10000000000000000
      ≡ (b + 0x8000000000000000) % 0x10000000000000000
    → a ≡ b
shift_inj a b h k e = omega arith

ltb_cases :
    (a b : ℕ)
    → ((ltb a b ≡ true) × (ltb b a ≡ false))
      ⊎ (((ltb b a ≡ true) × (ltb a b ≡ false)) ⊎ ((a ≡ b) × (ltb a b ≡ false) × (ltb b a ≡ false)))
ltb_cases a b = elim (dec_le b a) [
  | no h ↦ inl (ground arith, ground arith)
  | yes h ↦ elim (dec_le a b) [
    | no k ↦ inr (inl (ground arith, ground arith))
    | yes k ↦ inr (inr (omega arith, ground arith, ground arith))
  ]
]

-- Exactly one of three: the first duration is less, the second is, or they are the same.
pub less_cases :
    (a b : TimeDelta)
    → a.time_offset < 0x10000000000000000
    → b.time_offset < 0x10000000000000000
    → ((less a b ≡ true) × (less b a ≡ false))
      ⊎ (((less b a ≡ true) × (less a b ≡ false))
          ⊎ ((a.time_offset ≡ b.time_offset) × (less a b ≡ false) × (less b a ≡ false)))
unfolding less less64
less_cases a b h k =
    elim (ltb_cases ((a.time_offset + 0x8000000000000000) % 0x10000000000000000)
      ((b.time_offset + 0x8000000000000000) % 0x10000000000000000)) [
        | inl x ↦ inl x
        | inr (inl x) ↦ inr (inl x)
        | inr (inr (e, x, y)) ↦ inr (inr (shift_inj a.time_offset b.time_offset h k e, x, y))
      ]

base_clock64-bound :
    (s u : ℕ) → u < 1000000 → s < 9000000000000 → base_clock64 s u < 9100000000000000
unfolding base_clock64
base_clock64-bound s u h k = omega arith

div64-positive : (w : ℕ) → w < 0x8000000000000000 → div64 w 1000 ≡ w / 1000
unfolding div64
div64-positive w h = rw (lt-ltb w 0x8000000000000000 h)

-- Milliseconds that were counted from zero.
milliseconds_later :
    (m : ℕ) → m < 9100000000000000 → ((later_by zero_time (from_milliseconds m)).time ≡ m * 1000)
unfolding later_by from_milliseconds
milliseconds_later m h = omega arith

milliseconds-between :
    (a b : ProtoTime) (m n : ℕ)
    → a.time ≡ m * 1000
    → b.time ≡ n * 1000
    → m < 9100000000000000
    → n ≤ m
    → to_milliseconds (between a b) ≡ m - n
unfolding to_milliseconds between
milliseconds-between a b m n p q h le =
    let e : (a.time + 0x10000000000000000 - b.time) % 0x10000000000000000 ≡ (m - n) * 1000 =
      omega arith in
    ap (λ w. div64 w 1000) e ∙ div64-positive ((m - n) * 1000) (omega arith) ∙ omega arith

-- With fewer than 9 * 10 ^ 12 seconds on the clock, the clock of the system, set as the clock of
-- the program, shows the milliseconds and the microseconds of the program without a clock.
pub time_millis-now :
    (s u : ℕ)
    → u < 1000000
    → s < 9000000000000
    → (time_millis (some (now s u)) s u ≡ time_millis none s u)
      × (time_micro (some (now s u)) s u ≡ time_micro none s u)
unfolding time_millis time_micro now between
time_millis-now s u h k =
    let m = base_clock64 s u in
    let small = base_clock64-bound s u h k in
    let e = milliseconds_later m small in
    (
      milliseconds-between (later_by zero_time (from_milliseconds m)) zero_time m 0 e (omega arith)
            small (omega arith)
          ∙ omega arith,
      omega (arith, e),
    )

-- With fewer than 9 * 10 ^ 12 seconds on a clock that did not go back, a server reads the
-- milliseconds that went by since it was made.
pub get_wall_time_lem :
    (s u s' u' : ℕ)
    → u < 1000000
    → s < 9000000000000
    → base_clock64 s' u' ≤ base_clock64 s u
    → get_wall_time (now s' u') (now s u) ≡ base_clock64 s u - base_clock64 s' u'
unfolding get_wall_time now
get_wall_time_lem s u s' u' h k le =
    let small = base_clock64-bound s u h k in
    milliseconds-between (now s u) (now s' u') (base_clock64 s u) (base_clock64 s' u')
      (milliseconds_later (base_clock64 s u) small)
      (milliseconds_later (base_clock64 s' u') (omega arith)) small le
