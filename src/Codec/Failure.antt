-- ===== src/Codec/Failure.antt =====
-- What a failed read of base/byte_codec.cc does to the reads after it.
use tcp_congestion_mininet.Common.{
  ◌-◌, ◌++◌, ℕ, ◌%◌, ◌<◌, ◌≡◌, refl, ap, sym, subst, arith, Bool, true, false, Option, none, some,
  List, if-elim,
}
use tcp_congestion_mininet.Common.Lists.{replicate}
use tcp_congestion_mininet.Codec.{
  DataReader, Endianness, network_order, host_order, can_read, on_failure, read_bytes, as_value,
  read_uint8, read_uint, read_bytes_to_uint64, read_ufloat16, read_string_piece,
  read_string_piece16, from_le, net_to_host, ufloat16_value, is_done_reading, bytes_remaining,
}

-- The read operations of DataReader.
pub data ReadOp : Type 0 where
  uint8 uint16 uint32 uint64 ufloat16 string_piece16 : ReadOp
  bytes_to_uint64 bytes string_piece : ℕ → ReadOp

abbrev is_some : {A : Type 0} → DataReader × Option A → DataReader × Bool
is_some (r, none) = (r, false)
is_some (r, some x) = (r, true)

-- The reader after an operation, and whether it succeeded.
abbrev pub read : ReadOp → DataReader → DataReader × Bool
read uint8 r = is_some (read_uint8 r)
read uint16 r = is_some (read_uint 2 r)
read uint32 r = is_some (read_uint 4 r)
read uint64 r = is_some (read_uint 8 r)
read ufloat16 r = is_some (read_ufloat16 r)
read string_piece16 r = is_some (read_string_piece16 r)
read (bytes_to_uint64 n) r = is_some (read_bytes_to_uint64 n r)
read (bytes n) r = is_some (read_bytes n r)
read (string_piece n) r = is_some (read_string_piece n r)

-- The operation asks for a byte at least.
abbrev pub IsNeedy : ReadOp → Type 0
IsNeedy uint8 = Unit {0}
IsNeedy uint16 = Unit {0}
IsNeedy uint32 = Unit {0}
IsNeedy uint64 = Unit {0}
IsNeedy ufloat16 = Unit {0}
IsNeedy string_piece16 = Unit {0}
IsNeedy (bytes_to_uint64 n) = 0 < n
IsNeedy (bytes n) = 0 < n
IsNeedy (string_piece n) = 0 < n

-- The size that the operation asks for, as CanRead takes it: a number of 32 bits.
abbrev pub IsNarrow : ReadOp → Type 0
IsNarrow uint8 = Unit {0}
IsNarrow uint16 = Unit {0}
IsNarrow uint32 = Unit {0}
IsNarrow uint64 = Unit {0}
IsNarrow ufloat16 = Unit {0}
IsNarrow string_piece16 = Unit {0}
IsNarrow (bytes_to_uint64 n) = n < 0x100000000
IsNarrow (bytes n) = n < 0x100000000
IsNarrow (string_piece n) = n < 0x100000000

-- A failure leaves the reader at its end.
abbrev EndsIfFailed : {A : Type 0} → ℕ → DataReader × Option A → Type 0
EndsIfFailed len (r, none) = (r.pos ≡ r.len) × (r.len ≡ len)
EndsIfFailed len (r, some x) = r.len ≡ len

ended :
    {A : Type 0} (len : ℕ) (x : DataReader × Option A)
    → EndsIfFailed len x
    → (is_some x).1 ≡ false
    → ((is_some x).0.pos ≡ (is_some x).0.len) × ((is_some x).0.len ≡ len)
ended len (r, none) e f = e
ended len (r, some x) e f = absurd (cc)

as_value-ends :
    {A : Type 0} (len : ℕ) (g : A → ℕ) (x : DataReader × Option A)
    → EndsIfFailed len x
    → EndsIfFailed len (as_value g x)
as_value-ends len g (r, none) e = e
as_value-ends len g (r, some x) e = e

read_bytes-ends : (n : ℕ) (r : DataReader) → EndsIfFailed r.len (read_bytes n r)
unfolding read_bytes on_failure
read_bytes-ends n r = if-elim (EndsIfFailed r.len) (can_read n r) (λ _. refl) (λ _. (refl, refl))

read_string_piece-ends : (n : ℕ) (r : DataReader) → EndsIfFailed r.len (read_string_piece n r)
unfolding read_string_piece on_failure
read_string_piece-ends n r =
    if-elim (EndsIfFailed r.len) (can_read (n % 0x100000000) r) (λ _. refl) (λ _. (refl, refl))

read_uint-ends : (w : ℕ) (r : DataReader) → EndsIfFailed r.len (read_uint w r)
unfolding read_uint
read_uint-ends w r = as_value-ends r.len _ (read_bytes w r) (read_bytes-ends w r)

-- ReadStringPiece16 behind its length.
abbrev piece_of : DataReader × Option ℕ → DataReader × Option (List ℕ)
piece_of (s, len) = elim len [ none ↦ (s, none) | some result_len ↦ read_string_piece result_len s ]

read_string_piece16-ends : (r : DataReader) → EndsIfFailed r.len (read_string_piece16 r)
unfolding read_string_piece16
read_string_piece16-ends r = go (read_uint 2 r) (read_uint-ends 2 r)
  where
    go : (x : DataReader × Option ℕ) → EndsIfFailed r.len x → EndsIfFailed r.len (piece_of x)
    go (s, none) e = e
    go (s, some n) e =
        subst (λ len. EndsIfFailed len (read_string_piece n s)) e (read_string_piece-ends n s)

read_bytes_to_uint64-ends : (n : ℕ) (r : DataReader) → EndsIfFailed r.len (read_bytes_to_uint64 n r)
unfolding read_bytes_to_uint64
read_bytes_to_uint64-ends n r = go r.endianness
  where
    go :
        (e : Endianness) → EndsIfFailed r.len (read_bytes_to_uint64 n (record r { endianness = e }))
    go host_order = as_value-ends r.len _ (read_bytes n _) (read_bytes-ends n _)
    go network_order = as_value-ends r.len _ (read_bytes n _) (read_bytes-ends n _)

read-ends :
    (op : ReadOp) (r : DataReader)
    → (read op r).1 ≡ false
    → ((read op r).0.pos ≡ (read op r).0.len) × ((read op r).0.len ≡ r.len)
unfolding read_uint8 read_ufloat16
read-ends uint8 r f =
    ended r.len (read_uint8 r) (as_value-ends r.len _ (read_bytes 1 r) (read_bytes-ends 1 r)) f
read-ends uint16 r f = ended r.len (read_uint 2 r) (read_uint-ends 2 r) f
read-ends uint32 r f = ended r.len (read_uint 4 r) (read_uint-ends 4 r) f
read-ends uint64 r f = ended r.len (read_uint 8 r) (read_uint-ends 8 r) f
read-ends ufloat16 r f =
    ended r.len (read_ufloat16 r) (as_value-ends r.len _ (read_uint 2 r) (read_uint-ends 2 r)) f
read-ends string_piece16 r f = ended r.len (read_string_piece16 r) (read_string_piece16-ends r) f
read-ends (bytes_to_uint64 n) r f =
    ended r.len (read_bytes_to_uint64 n r) (read_bytes_to_uint64-ends n r) f
read-ends (bytes n) r f = ended r.len (read_bytes n r) (read_bytes-ends n r) f
read-ends (string_piece n) r f = ended r.len (read_string_piece n r) (read_string_piece-ends n r) f

-- A reader at its end.
module _ (r : DataReader) (e : r.pos ≡ r.len) (small : r.len < 0x100000000) where
  none_left : (n : ℕ) → 0 < n → can_read n r ≡ false
  unfolding can_read
  none_left n h = ground (arith, e)

  stays : on_failure r ≡ r
  unfolding on_failure
  stays = ap (λ k. record r { pos = k }) (sym e)

  read_bytes-none : (n : ℕ) → 0 < n → read_bytes n r ≡ (r, none)
  unfolding read_bytes
  read_bytes-none n h = rw (none_left n h) (ap (λ s. (s, none)) stays)

  read_string_piece-none : (n : ℕ) → 0 < n % 0x100000000 → read_string_piece n r ≡ (r, none)
  unfolding read_string_piece
  read_string_piece-none n h = rw (none_left (n % 0x100000000) h) (ap (λ s. (s, none)) stays)

  read_uint-none : (w : ℕ) → 0 < w → read_uint w r ≡ (r, none)
  unfolding read_uint
  read_uint-none w h = ap (as_value _) (read_bytes-none w h)

  read_bytes_to_uint64-none : (n : ℕ) → 0 < n → read_bytes_to_uint64 n r ≡ (r, none)
  unfolding read_bytes_to_uint64
  read_bytes_to_uint64-none n h = go r.endianness
    where
      go :
          (o : Endianness)
          → (elim o as (λ _. DataReader × Option ℕ) [
            | host_order ↦ as_value (λ bs. from_le (bs ++ replicate (8 - n) 0)) (read_bytes n r)
            | network_order ↦
                as_value
                  (λ bs. net_to_host 8 (from_le (replicate (8 - n) 0 ++ bs)))
                  (read_bytes n r)
          ])
            ≡ (r, none)
      go host_order = ap (as_value _) (read_bytes-none n h)
      go network_order = ap (as_value _) (read_bytes-none n h)

  read-none : (op : ReadOp) → IsNeedy op → IsNarrow op → read op r ≡ (r, false)
  unfolding read_uint8 read_ufloat16 read_string_piece16
  read-none uint8 h k = ap (λ x. is_some (as_value from_le x)) (read_bytes-none 1 (omega arith))
  read-none uint16 h k = ap is_some (read_uint-none 2 (omega arith))
  read-none uint32 h k = ap is_some (read_uint-none 4 (omega arith))
  read-none uint64 h k = ap is_some (read_uint-none 8 (omega arith))
  read-none ufloat16 h k =
      ap (λ x. is_some (as_value ufloat16_value x)) (read_uint-none 2 (omega arith))
  read-none string_piece16 h k = ap (λ x. is_some (piece_of x)) (read_uint-none 2 (omega arith))
  read-none (bytes_to_uint64 n) h k = ap is_some (read_bytes_to_uint64-none n h)
  read-none (bytes n) h k = ap is_some (read_bytes-none n h)
  read-none (string_piece n) h k = ap is_some (read_string_piece-none n (omega (arith, h, k)))

-- Once an operation has failed on a reader of fewer than 2 ^ 32 bytes, the reader says that it is
-- done, with no bytes left, and every later operation that asks for a byte at least, and for fewer
-- than 2 ^ 32, fails and changes nothing.
pub read_fails :
    (op next : ReadOp) (r : DataReader)
    → r.len < 0x100000000
    → (read op r).1 ≡ false
    → IsNeedy next
    → IsNarrow next
    → (is_done_reading (read op r).0 ≡ true)
      × (bytes_remaining (read op r).0 ≡ 0)
      × (read next (read op r).0 ≡ ((read op r).0, false))
unfolding is_done_reading bytes_remaining
read_fails op next r small f needy narrow =
    let s = (read op r).0 in
    let (e, l) = read-ends op r f in
    (ground (arith, e), omega (arith, e, l), read-none s e (omega (arith, l)) next needy narrow)
