-- ===== src/Codec/Bytes.antt =====
-- Integers and their bytes: both orders are inverse to reading them back.
use tcp_congestion_mininet.Common.{
  ℕ, zero, suc, ◌/◌, ◌^◌, ◌<◌, ◌≡◌, refl, ap, ap₂, subst, ◌∙◌, List, [], ◌∷◌, ◌++◌, arith,
}
use tcp_congestion_mininet.Common.Lists.{length, All, length-append}
use tcp_congestion_mininet.Codec.{
  le_bytes, from_le, byte_swap, Endianness, network_order, host_order, swap_if_network,
}
use mathlib.Core.List.{reverse, reverse-cons, reverse-reverse}
use native.Mathlib.Nat.{pow-suc}

abbrev pub IsByte : ℕ → Type 0
IsByte b = b < 256

pub length-le_bytes : (w v : ℕ) → length (le_bytes w v) ≡ w
unfolding le_bytes
length-le_bytes zero v = refl
length-le_bytes (suc w) v = ap suc (length-le_bytes w (v / 256))

pub le_bytes-IsByte : (w v : ℕ) → All IsByte (le_bytes w v)
unfolding le_bytes
le_bytes-IsByte zero v = tt
le_bytes-IsByte (suc w) v = (omega arith, le_bytes-IsByte w (v / 256))

pub from_le-le_bytes : (w v : ℕ) → v < 256 ^ w → from_le (le_bytes w v) ≡ v
unfolding le_bytes from_le
from_le-le_bytes zero v h = omega arith
from_le-le_bytes (suc w) v h =
    omega (arith, from_le-le_bytes w (v / 256) (omega (arith, pow-suc 256 w)))

pub le_bytes-from_le : (bs : List ℕ) → All IsByte bs → le_bytes (length bs) (from_le bs) ≡ bs
unfolding le_bytes from_le
le_bytes-from_le [] h = refl
le_bytes-from_le (b ∷ bs) (hb, h) =
    ap₂ ◌∷◌ (omega arith) (ap (le_bytes (length bs)) (omega arith) ∙ le_bytes-from_le bs h)

All-append {ℓ κ} :
    {A : Type ℓ} (P : A → Type κ) (xs ys : List A) → All P xs → All P ys → All P (xs ++ ys)
All-append P [] ys h k = k
All-append P (x ∷ xs) ys (hx, h) k = (hx, All-append P xs ys h k)

All-reverse {ℓ κ} : {A : Type ℓ} (P : A → Type κ) (xs : List A) → All P xs → All P (reverse xs)
All-reverse P [] h = tt
All-reverse P (x ∷ xs) (hx, h) =
    rw (reverse-cons x xs) (All-append P (reverse xs) (x ∷ []) (All-reverse P xs h) (hx, tt))

pub length-reverse {ℓ} : {A : Type ℓ} (xs : List A) → length (reverse xs) ≡ length xs
length-reverse [] = refl
length-reverse (x ∷ xs) = rw (reverse-cons x xs, length-append) (omega (arith, length-reverse xs))

-- What stands in memory after a swap: the bytes, highest first.
pub le_bytes-byte_swap : (w v : ℕ) → le_bytes w (byte_swap w v) ≡ reverse (le_bytes w v)
unfolding byte_swap
le_bytes-byte_swap w v =
    let bs = reverse (le_bytes w v) in
    let size : length bs ≡ w = length-reverse (le_bytes w v) ∙ length-le_bytes w v in
    subst (λ n. le_bytes n (from_le bs) ≡ bs) size
      (le_bytes-from_le bs (All-reverse IsByte (le_bytes w v) (le_bytes-IsByte w v)))

-- Swapping twice gives the integer back.
pub byte_swap-byte_swap : (w v : ℕ) → v < 256 ^ w → byte_swap w (byte_swap w v) ≡ v
byte_swap-byte_swap w v h =
    byte_swap_lem w (byte_swap w v)
    ∙ ap (λ bs. from_le (reverse bs)) (le_bytes-byte_swap w v)
    ∙ ap from_le (reverse-reverse (le_bytes w v))
    ∙ from_le-le_bytes w v h
  where
    byte_swap_lem : (w x : ℕ) → byte_swap w x ≡ from_le (reverse (le_bytes w x))
    byte_swap_lem w x = unfold byte_swap in refl

from_le-lt : (bs : List ℕ) → All IsByte bs → from_le bs < 256 ^ length bs
unfolding from_le
from_le-lt [] h = omega arith
from_le-lt (b ∷ bs) (hb, h) = omega (arith, from_le-lt bs h, pow-suc 256 (length bs))

pub byte_swap-lt : (w v : ℕ) → byte_swap w v < 256 ^ w
unfolding byte_swap
byte_swap-lt w v =
    let bs = reverse (le_bytes w v) in
    let size : length bs ≡ w = length-reverse (le_bytes w v) ∙ length-le_bytes w v in
    subst (λ n. from_le bs < 256 ^ n) size
      (from_le-lt bs (All-reverse IsByte (le_bytes w v) (le_bytes-IsByte w v)))

-- The bytes of an integer that fits them, swapped where the order asks for it, give the integer
-- back.
pub encoded_back :
    (e : Endianness) (w v : ℕ)
    → v < 256 ^ w
    → swap_if_network e w (from_le (le_bytes w (swap_if_network e w v))) ≡ v
encoded_back network_order w v h =
    ap (byte_swap w) (from_le-le_bytes w (byte_swap w v) (byte_swap-lt w v))
    ∙ byte_swap-byte_swap w v h
encoded_back host_order w v h = from_le-le_bytes w v h
