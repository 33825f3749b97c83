-- ===== src/Codec/Padding.antt =====
-- ReadBytesToUInt64 and WriteBytesToUInt64 of base/byte_codec.cc: integers of up to eight bytes.
use tcp_congestion_mininet.Common.{
  ℕ, zero, suc, ◌+◌, ◌-◌, ◌/◌, ◌%◌, ◌^◌, ◌≤◌, ◌<◌, ◌≡◌, refl, ap, sym, subst, ◌∙◌, arith, List, [],
  ◌∷◌, ◌++◌, ltb, Option, if-elim, Bool,
}
use tcp_congestion_mininet.Common.Lists.{
  length, take, drop, replicate, length-replicate, take-append, drop-append,
}
use tcp_congestion_mininet.Codec.{
  DataReader, DataWriter, Endianness, network_order, host_order, le_bytes, from_le, byte_swap,
  write_bytes, write_bytes_to_uint64, as_value, read_bytes, read_bytes_to_uint64,
}
use tcp_congestion_mininet.Codec.Bytes.{
  length-le_bytes, le_bytes-byte_swap, byte_swap-byte_swap, from_le-le_bytes, length-reverse,
  byte_swap-lt,
}
use tcp_congestion_mininet.Codec.Views.{IsReader, unread}
use tcp_congestion_mininet.Codec.RoundTrip.{Reads, as_value-wire}
use mathlib.Core.List.{reverse, reverse-cons, reverse-append}
use native.Mathlib.Nat.{pow-suc, pow-le-pow_right}

le_bytes-zero : (k : ℕ) → le_bytes k 0 ≡ replicate k 0
unfolding le_bytes
le_bytes-zero zero = refl
le_bytes-zero (suc k) = ap (◌∷◌ 0) (le_bytes-zero k)

-- An integer of `n` bytes in more bytes than it needs.
pub le_bytes-pad : (n k v : ℕ) → v < 256 ^ n → le_bytes (n + k) v ≡ le_bytes n v ++ replicate k 0
unfolding le_bytes
le_bytes-pad zero k v h =
    let z : v ≡ 0 = omega arith in let e : zero + k ≡ k = omega arith in rw (z, e) (le_bytes-zero k)
le_bytes-pad (suc n) k v h =
    let e : suc n + k ≡ suc (n + k) = omega arith in
    rw e (ap (◌∷◌ (v % 256)) (le_bytes-pad n k (v / 256) (omega (arith, pow-suc 256 n))))

from_le-pad : (bs : List ℕ) (k : ℕ) → from_le (bs ++ replicate k 0) ≡ from_le bs
unfolding from_le
from_le-pad [] zero = refl
from_le-pad [] (suc k) = omega (arith, from_le-pad [] k)
from_le-pad (b ∷ bs) k = omega (arith, from_le-pad bs k)

replicate-snoc : (k x : ℕ) → replicate k x ++ x ∷ [] ≡ x ∷ replicate k x
replicate-snoc zero x = refl
replicate-snoc (suc k) x = ap (◌∷◌ x) (replicate-snoc k x)

reverse-replicate : (k x : ℕ) → reverse (replicate k x) ≡ replicate k x
reverse-replicate zero x = refl
reverse-replicate (suc k) x =
    rw (reverse-cons x (replicate k x), reverse-replicate k x) (replicate-snoc k x)

reverse-pad : (xs : List ℕ) (k : ℕ) → reverse (xs ++ replicate k 0) ≡ replicate k 0 ++ reverse xs
reverse-pad xs k =
    reverse-append xs (replicate k 0) ∙ ap (λ l. l ++ reverse xs) (reverse-replicate k 0)

-- The bytes on the wire: the integer's, in the order of the host or of the network.
abbrev pub narrow : Endianness → ℕ → ℕ → List ℕ
narrow host_order n v = le_bytes n v
narrow network_order n v = reverse (le_bytes n v)

pub length-narrow : (o : Endianness) (n v : ℕ) → length (narrow o n v) ≡ n
length-narrow host_order n v = length-le_bytes n v
length-narrow network_order n v = length-reverse (le_bytes n v) ∙ length-le_bytes n v

-- The eight bytes of the integer in memory, and as they stand after the swap.
module _ (n v : ℕ) (few : n ≤ 8) (fits : v < 256 ^ n) where
  padded : le_bytes 8 v ≡ le_bytes n v ++ replicate (8 - n) 0
  padded =
      let e : n + (8 - n) ≡ 8 = omega arith in
      subst (λ k. le_bytes k v ≡ le_bytes n v ++ replicate (8 - n) 0) e
        (le_bytes-pad n (8 - n) v fits)

  padded_swap : le_bytes 8 (byte_swap 8 v) ≡ replicate (8 - n) 0 ++ reverse (le_bytes n v)
  padded_swap = le_bytes-byte_swap 8 v ∙ ap reverse padded ∙ reverse-pad (le_bytes n v) (8 - n)

  wide : v < 256 ^ 8
  wide = omega (arith, fits, pow-le-pow_right {n = 256} (omega arith) few)

  host_bytes : take n (le_bytes 8 v) ≡ le_bytes n v
  host_bytes =
      ap (take n) padded
      ∙ subst (λ k. take k (le_bytes n v ++ replicate (8 - n) 0) ≡ le_bytes n v)
          (length-le_bytes n v) (take-append (le_bytes n v) (replicate (8 - n) 0))

  network_bytes : drop (8 - n) (le_bytes 8 (byte_swap 8 v)) ≡ reverse (le_bytes n v)
  network_bytes =
      ap (drop (8 - n)) padded_swap
      ∙ subst (λ k. drop k (replicate (8 - n) 0 ++ reverse (le_bytes n v)) ≡ reverse (le_bytes n v))
          (length-replicate (8 - n) (let z : ℕ = 0 in z))
          (drop-append (replicate (8 - n) 0) (reverse (le_bytes n v)))

  host_value : from_le (le_bytes n v ++ replicate (8 - n) 0) ≡ v
  host_value = from_le-pad (le_bytes n v) (8 - n) ∙ from_le-le_bytes n v fits

  network_value : byte_swap 8 (from_le (replicate (8 - n) 0 ++ reverse (le_bytes n v))) ≡ v
  network_value =
      ap (λ bs. byte_swap 8 (from_le bs)) (sym padded_swap)
      ∙ ap (byte_swap 8) (from_le-le_bytes 8 (byte_swap 8 v) (byte_swap-lt 8 v))
      ∙ byte_swap-byte_swap 8 v wide

  pub write_bytes_to_uint64-narrow :
      (w : DataWriter) → write_bytes_to_uint64 n v w ≡ write_bytes (narrow w.endianness n v) w
  unfolding write_bytes_to_uint64
  write_bytes_to_uint64-narrow w =
      if-elim (λ (r : DataWriter × Bool). r ≡ write_bytes (narrow w.endianness n v) w) (ltb 8 n)
        (λ many. absurd (ground (arith, many))) (λ _. go w.endianness)
    where
      go :
          (o : Endianness)
          → (elim o as (λ _. DataWriter × Bool) [
            | host_order ↦ write_bytes (take n (le_bytes 8 v)) w
            | network_order ↦ write_bytes (drop (8 - n) (le_bytes 8 (byte_swap 8 v))) w
          ])
            ≡ write_bytes (narrow o n v) w
      go host_order = ap (λ bs. write_bytes bs w) host_bytes
      go network_order = ap (λ bs. write_bytes bs w) network_bytes

  pub read_bytes_to_uint64-narrow :
      (r : DataReader) (rest : List ℕ)
      → IsReader r
      → unread r ≡ narrow r.endianness n v ++ rest
      → Reads r rest v (read_bytes_to_uint64 n r)
  unfolding read_bytes_to_uint64
  read_bytes_to_uint64-narrow r rest valid e = go r.endianness e
    where
      go :
          (o : Endianness)
          → unread r ≡ narrow o n v ++ rest
          → Reads r rest v (elim o as (λ _. DataReader × Option ℕ) [
            | host_order ↦ as_value (λ bs. from_le (bs ++ replicate (8 - n) 0)) (read_bytes n r)
            | network_order ↦
                as_value (λ bs. byte_swap 8 (from_le (replicate (8 - n) 0 ++ bs))) (read_bytes n r)
          ])
      go host_order e =
          as_value-wire (λ bs. from_le (bs ++ replicate (8 - n) 0)) n v (le_bytes n v) rest r valid
            (length-narrow host_order n v) host_value e
      go network_order e =
          as_value-wire (λ bs. byte_swap 8 (from_le (replicate (8 - n) 0 ++ bs))) n v
            (reverse (le_bytes n v)) rest r valid (length-narrow network_order n v) network_value e
