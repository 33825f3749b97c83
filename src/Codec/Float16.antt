-- ===== src/Codec/Float16.antt =====
-- The sixteen-bit floating point values of WriteUFloat16 and ReadUFloat16.
use tcp_congestion_mininet.Common.{
  ℕ, zero, suc, ◌+◌, ◌-◌, ◌*◌, ◌/◌, ◌%◌, ◌^◌, ◌<◌, ◌≤◌, ◌≡◌, refl, ap, arith, leb, Bool-cases, inl,
  inr, ◌⊎◌,
}
use tcp_congestion_mininet.Codec.{shift_round, highest_bits, ufloat16_bits, ufloat16_value}
use native.Mathlib.Nat.{pow-suc, mul-le-mul_right}
use native.Mathlib.Decide.{ℕ_discrete, dec_le}

pow_two-add : (e k : ℕ) → 2 ^ (e + k) ≡ 2 ^ k * 2 ^ e
pow_two-add e zero = let z : e + 0 ≡ e = omega arith in rw z (omega arith)
pow_two-add e (suc k) =
    let s : e + suc k ≡ suc (e + k) = omega arith in
    rw s (
      omega (
        arith,
        pow-suc 2 (e + k),
        pow-suc 2 k,
        pow_two-add e k,
        ap (λ (t : ℕ). t * 2 ^ e) (pow-suc 2 k),
      ))

-- `value` shifted to the right by the first component is the second one.
record IsShifted (value : ℕ) (r : ℕ × ℕ) : Type 0 where
  low : r.1 * 2 ^ r.0 ≤ value
  high : value < r.1 * 2 ^ r.0 + 2 ^ r.0
  top : 2 ^ 11 ≤ r.1

times_low : (a q x m v : ℕ) → a * q ≤ m → m * x ≤ v → q * (a * x) ≤ v
times_low a q x m v h k = omega (arith, mul-le-mul_right x h)

times_high : (a q x m v : ℕ) → m + 1 ≤ a * q + a → v < m * x + x → v < q * (a * x) + a * x
times_high a q x m v h k = omega (arith, mul-le-mul_right x h)

shift-IsShifted :
    (k value e m : ℕ)
    → IsShifted value (e, m)
    → 2 ^ 11 ≤ m / 2 ^ k
    → 0 < 2 ^ k
    → IsShifted value (e + k, m / 2 ^ k)
shift-IsShifted k value e m s t pos =
    let q = m / 2 ^ k in
    let p = pow_two-add e k in
    let below : 2 ^ k * q ≤ m = grind arith in
    let above : m + 1 ≤ 2 ^ k * q + 2 ^ k = grind arith in
    record {
      low = rw p (times_low (2 ^ k) q (2 ^ e) m value below s.low);
      high = rw p (times_high (2 ^ k) q (2 ^ e) m value above s.high);
      top = t;
    }

-- A round at `k` keeps that, and leaves at most 12 + k - 1 bits of 12 + 2 * k - 1.
record IsRound (value k : ℕ) (r s : ℕ × ℕ) : Type 0 where
  shifted : IsShifted value s
  fewer : s.1 < 2 ^ (11 + k)
  more : r.0 ≤ s.0
  bound : s.0 ≤ r.0 + k

shift_round-IsRound :
    (k value e m : ℕ)
    → IsShifted value (e, m)
    → 2 ^ (11 + k) ≡ 2 ^ k * 2 ^ 11
    → 2 ^ (11 + 2 * k) ≡ 2 ^ k * 2 ^ (11 + k)
    → 0 < 2 ^ k
    → m < 2 ^ (11 + 2 * k)
    → IsRound value k (e, m) (shift_round k (e, m))
unfolding shift_round
shift_round-IsRound k value e m s p q pos h = elim (Bool-cases (leb (2 ^ (11 + k)) m)) [
  | inl big ↦ rw big (record {
    shifted = shift-IsShifted k value e m s (grind arith) pos;
    fewer = grind arith;
    more = omega arith;
    bound = omega arith;
  })
  | inr small ↦
      rw small
        (record { shifted = s; fewer = ground arith; more = omega arith; bound = omega arith })
]

-- The five rounds bring a value of 12 to 42 bits down to its 12 highest bits.
highest_bits_lem :
    (v : ℕ)
    → 2 ^ 11 ≤ v
    → v < 2 ^ 43
    → IsShifted v (highest_bits v) × ((highest_bits v).1 < 2 ^ 12) × ((highest_bits v).0 ≤ 31)
unfolding highest_bits
highest_bits_lem v lo hi =
    let s0 : IsShifted v (0, v) = record { low = omega arith; high = omega arith; top = lo } in
    let a = shift_round-IsRound 16 v 0 v s0 refl refl (omega arith) hi in
    let ra = shift_round 16 (0, v) in
    let b = shift_round-IsRound 8 v ra.0 ra.1 a.shifted refl refl (omega arith) a.fewer in
    let rb = shift_round 8 ra in
    let c = shift_round-IsRound 4 v rb.0 rb.1 b.shifted refl refl (omega arith) b.fewer in
    let rc = shift_round 4 rb in
    let d = shift_round-IsRound 2 v rc.0 rc.1 c.shifted refl refl (omega arith) c.fewer in
    let rd = shift_round 2 rc in
    let e = shift_round-IsRound 1 v rd.0 rd.1 d.shifted refl refl (omega arith) d.fewer in
    (e.shifted, e.fewer, omega (arith, a.bound, b.bound, c.bound, d.bound, e.bound))

exponent_range :
    (v e m : ℕ)
    → IsShifted v (e, m)
    → m < 2 ^ 12
    → e ≤ 31
    → 2 ^ 12 ≤ v
    → v < 2 ^ 42
    → (1 ≤ e) × (e ≤ 30)
exponent_range v e m s h top lo hi = (
  elim (ℕ_discrete e 0) [
    | yes p ↦
        let one : 2 ^ e ≡ 1 = ap (λ (t : ℕ). 2 ^ t) p in
        absurd (omega (arith, one, s.high, ap (λ (t : ℕ). m * t) one))
    | no p ↦ omega arith
  ],
  elim (ℕ_discrete e 31) [
    | yes p ↦
        let one : 2 ^ e ≡ 2 ^ 31 = ap (λ (t : ℕ). 2 ^ t) p in
        absurd (omega (arith, one, s.low, s.top, ap (λ (t : ℕ). m * t) one))
    | no p ↦ omega arith
  ],
)

-- Decoding the packed mantissa and exponent.
unpack :
    (v e m : ℕ)
    → IsShifted v (e, m)
    → m < 2 ^ 12
    → 1 ≤ e
    → e ≤ 30
    → v < 2 ^ 42
    → ufloat16_value ((m + e * 2 ^ 11) % 2 ^ 16) ≡ m * 2 ^ e
unfolding ufloat16_value
unpack v e m s h pos top small =
    let packed : (m + e * 2 ^ 11) % 2 ^ 16 ≡ m + e * 2 ^ 11 = omega arith in
    let exponent : (m + e * 2 ^ 11) / 2 ^ 11 - 1 ≡ e = omega (arith, s.top) in
    let mantissa : m + e * 2 ^ 11 - e * 2 ^ 11 ≡ m = omega arith in
    let fits : m * 2 ^ e % 0x10000000000000000 ≡ m * 2 ^ e = omega (arith, s.low) in
    rw packed (rw exponent (rw mantissa (ground (arith, fits, s.top))))

ufloat16_bits-small : (v : ℕ) → v < 2 ^ 12 → ufloat16_bits v ≡ v
unfolding ufloat16_bits
ufloat16_bits-small v h = ground arith

ufloat16_bits-large : (v : ℕ) → 0x3ffc0000000 ≤ v → ufloat16_bits v ≡ 0xffff
unfolding ufloat16_bits
ufloat16_bits-large v h = ground arith

ufloat16_bits-middle :
    (v : ℕ)
    → 2 ^ 12 ≤ v
    → v < 0x3ffc0000000
    → ufloat16_bits v ≡ ((highest_bits v).1 + (highest_bits v).0 * 2 ^ 11) % 2 ^ 16
unfolding ufloat16_bits
ufloat16_bits-middle v h k = ground arith

-- A value below 2 ^ 12 comes back exactly; one from 2 ^ 12 up to the largest value comes back no
-- greater, less by under one part in 2049; one above comes back as the largest value.
pub ufloat16_value-bits :
    (v : ℕ)
    → ((v < 2 ^ 12) × (ufloat16_value (ufloat16_bits v) ≡ v))
      ⊎ (((2 ^ 12 ≤ v)
            × (v < 0x3ffc0000000)
            × (ufloat16_value (ufloat16_bits v) ≤ v)
            × (v * 2048 < ufloat16_value (ufloat16_bits v) * 2049))
          ⊎ ((0x3ffc0000000 ≤ v) × (ufloat16_value (ufloat16_bits v) ≡ 0x3ffc0000000)))
ufloat16_value-bits v = elim (dec_le 0x3ffc0000000 v) [
  | yes h ↦ inr (inr (h, rw (ufloat16_bits-large v h) (unfold ufloat16_value in refl)))
  | no h ↦ elim (dec_le (2 ^ 12) v) [
    | yes k ↦ inr (inl (k, omega arith, (near k (omega arith)).0, (near k (omega arith)).1))
    | no k ↦ inl (
      omega arith,
      rw (ufloat16_bits-small v (omega arith)) (unfold ufloat16_value in ground arith),
    )
  ]
]
  where
    middle :
        2 ^ 12 ≤ v
        → v < 0x3ffc0000000
        → let d = ufloat16_value (((highest_bits v).1 + (highest_bits v).0 * 2 ^ 11) % 2 ^ 16) in
          (d ≤ v) × (v * 2048 < d * 2049)
    middle h k =
        let (s, few, top) = highest_bits_lem v (omega arith) (omega arith) in
        let e = (highest_bits v).0 in
        let pos : 1 ≤ e = (exponent_range v e _ s few top h (omega arith)).0 in
        let fits : e ≤ 30 = (exponent_range v e _ s few top h (omega arith)).1 in
        rw (unpack v e (highest_bits v).1 s few pos fits (omega arith))
          (s.low, omega (arith, s.high, mul-le-mul_right (2 ^ e) s.top))

    near :
        2 ^ 12 ≤ v
        → v < 0x3ffc0000000
        → let d = ufloat16_value (ufloat16_bits v) in (d ≤ v) × (v * 2048 < d * 2049)
    near h k = rw (ufloat16_bits-middle v h k) (middle h k)
