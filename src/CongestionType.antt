-- ===== src/CongestionType.antt =====
-- set_congestion_type of tcp_info.cc, next to SetCongestionAlgo of tcp/tcp_client.cc.
mod Tests
use tcp_congestion_mininet.Common.{
  ℕ, zero, suc, ◌+◌, ◌-◌, ◌≤◌, ◌<◌, ◌≡◌, refl, ap, ap₂, sym, ◌∙◌, arith, Option, none, some, List,
  [], ◌∷◌, ◌++◌, ◌==◌, Bool, true, false, ltb, lt-ltb, ◌⊎◌, if◌then◌else◌, if-elim, min, Bool-cases,
  inl, inr,
}
use tcp_congestion_mininet.Common.Lists.{length, length-take, take, replicate, All, take-append}
use mathlib.Core.Option
use mathlib.Core.List.{append-nil}
use tcp_congestion_mininet.Client.{tcp_cc_name_max, congestion_optval, c_strlen}

-- strncpy of a string, given without its terminator.
unfoldable pub strncpy : ℕ → List ℕ → List ℕ
strncpy zero name = []
strncpy (suc n) [] = 0 ∷ strncpy n []
strncpy (suc n) (x ∷ name) = x ∷ strncpy n name

-- The buffer and the length that it hands to setsockopt: no length where strlen runs out of the buffer.
-- It returns setsockopt's answer.
unfoldable pub set_congestion_type : List ℕ → List ℕ × Option ℕ
unfolding strncpy
set_congestion_type name =
    let optval = strncpy tcp_cc_name_max name in (optval, Option.map suc (c_strlen optval))

strncpy-pads : (n : ℕ) → strncpy n [] ≡ replicate n 0
unfolding strncpy
strncpy-pads zero = refl
strncpy-pads (suc n) = ap (◌∷◌ 0) (strncpy-pads n)

-- The first `copy` bytes, and `rest` zeros.
abbrev padded : ℕ → ℕ → List ℕ → List ℕ
padded copy rest name = take copy name ++ replicate rest 0

strncpy_lem :
    (n : ℕ) (name : List ℕ)
    → strncpy n name ≡ padded (min n (length name)) (n - min n (length name)) name
unfolding strncpy
strncpy_lem zero [] = refl
strncpy_lem zero (x ∷ name) = same (omega arith) (omega arith)
  where
    same : {k m : ℕ} → k ≡ 0 → m ≡ 0 → [] ≡ padded k m (x ∷ name)
    same p q = rw (p, q) refl
strncpy_lem (suc n) [] = same (omega arith) (omega arith)
  where
    same : {k m : ℕ} → k ≡ 0 → m ≡ suc n → 0 ∷ strncpy n [] ≡ padded k m []
    same p q = rw (p, q) (ap (◌∷◌ 0) (strncpy-pads n))
strncpy_lem (suc n) (x ∷ name) = same (strncpy_lem n name) (omega arith) (omega arith)
  where
    same :
        {k m : ℕ}
        → strncpy n name ≡ padded (min n (length name)) (n - min n (length name)) name
        → k ≡ suc (min n (length name))
        → m ≡ n - min n (length name)
        → x ∷ strncpy n name ≡ padded k m (x ∷ name)
    same ih p q = rw (p, q) (ap (◌∷◌ x) ih)

-- strlen of bytes that are not zero, followed by `n` zeros.
c_strlen_lem :
    (n : ℕ) (xs : List ℕ)
    → All (λ x. 0 < x) xs
    → c_strlen (xs ++ replicate n 0) ≡ (if ltb 0 n then some (length xs) else none)
unfolding c_strlen
c_strlen_lem zero [] a = refl
c_strlen_lem (suc n) [] a =
    ap (λ b. if b then some 0 else none) (sym (lt-ltb 0 (suc n) (omega arith)))
c_strlen_lem n (x ∷ xs) (p, a) =
    if-elim (λ r. r ≡ (if ltb 0 n then some (suc (length xs)) else none)) (x == 0)
      (λ z. absurd (ground (arith, p)))
      (λ _. ap (Option.map suc) (c_strlen_lem n xs a) ∙ out (ltb 0 n))
  where
    out :
        (b : Bool)
        → Option.map suc (if b then some (length xs) else none)
          ≡ (if b then some (suc (length xs)) else none)
    out true = refl
    out false = refl

All-take : (n : ℕ) (xs : List ℕ) → All (λ x. 0 < x) xs → All (λ x. 0 < x) (take n xs)
All-take zero xs a = tt
All-take (suc n) [] a = tt
All-take (suc n) (x ∷ xs) (p, a) = (p, All-take n xs a)

-- For a name without a zero in it, both programs hand the same sixteen bytes to setsockopt, and
-- tcp_info.cc the length of the name and its terminator; for a name of sixteen bytes or more
-- strlen runs out of the buffer.
pub set_congestion_type_lem :
    (name : List ℕ)
    → All (λ x. 0 < x) name
    → set_congestion_type name
      ≡ (congestion_optval name, (if ltb (length name) 16 then some (suc (length name)) else none))
unfolding set_congestion_type congestion_optval
set_congestion_type_lem name a =
    let copy = min 16 (length name) in
    let size = c_strlen_lem (16 - copy) (take copy name) (All-take copy name a) in
    ap (λ l. (l, Option.map suc (c_strlen l))) (strncpy_lem 16 name)
    ∙ ap (λ k. (padded copy (16 - copy) name, Option.map suc k)) size
    ∙ ap (λ k. (padded copy (16 - copy) name, k)) (ends (Bool-cases (ltb (length name) 16)))
  where
    ends :
        (ltb (length name) 16 ≡ true) ⊎ (ltb (length name) 16 ≡ false)
        → Option.map suc (
            if ltb 0 (16 - min 16 (length name))
            then some (length (take (min 16 (length name)) name))
            else none)
          ≡ (if ltb (length name) 16 then some (suc (length name)) else none)
    ends (inl l) =
        let room : ltb 0 (16 - min 16 (length name)) ≡ true = ground arith in
        rw (l, room)
          (ap (λ n. some (suc n)) (ground (arith, length-take (min 16 (length name)) name)))
    ends (inr l) =
        let room : ltb 0 (16 - min 16 (length name)) ≡ false = ground arith in rw (l, room) refl
