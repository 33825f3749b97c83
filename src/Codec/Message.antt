-- ===== src/Codec/Message.antt =====
-- Whole messages of base/byte_codec.cc: fields that are written one after the other, and read in the same
-- order.
pub mod Back
use tcp_congestion_mininet.Common.{
  ℕ, zero, suc, ◌+◌, ◌-◌, ◌^◌, ◌≤◌, ◌<◌, ◌≡◌, refl, ap, ap₂, sym, subst, ◌∙◌, arith, List, [], ◌∷◌,
  ◌++◌, map, true, false, Bool, Option, none, some, ◌⊎◌, inl, inr, if◌then◌else◌, if-elim, ltb, leb,
}
use tcp_congestion_mininet.Common.Lists.{length, take, drop, All, length-append}
use tcp_congestion_mininet.Codec.{
  DataReader, DataWriter, Endianness, le_bytes, from_le, ufloat16_bits, ufloat16_value, as_value,
  new_reader, new_writer, read_bytes, read_uint8, read_uint, read_ufloat16, read_bytes_to_uint64,
  write_bytes, write_uint8, write_uint, write_ufloat16, is_done_reading,
}
use tcp_congestion_mininet.Codec.Bytes.{length-le_bytes, from_le-le_bytes}
use tcp_congestion_mininet.Codec.Views.{
  IsWriter, written, Appended, write_bytes_lem, IsReader, unread, length-unread,
}
use tcp_congestion_mininet.Codec.RoundTrip.{
  wire, Reads, read_bytes-wire, as_value-wire, read_uint-wire,
}
use tcp_congestion_mininet.Codec.Padding.{
  narrow, length-narrow, write_bytes_to_uint64-narrow, read_bytes_to_uint64-narrow,
}
use tcp_congestion_mininet.Codec.Typed.{
  WriteOp, uint8, uint16, uint32, uint64, ufloat16, bytes_to_uint64, bytes, write,
}
use mathlib.Core.List.{append_assoc, append-nil}
use native.Mathlib.Decide.{dec_le}

pub data Value : Type 0 where
  number : ℕ → Value
  text : List ℕ → Value

abbrev pub as_number : DataReader × Option ℕ → DataReader × Option Value
as_number (r, none) = (r, none)
as_number (r, some v) = (r, some (number v))

abbrev pub as_text : DataReader × Option (List ℕ) → DataReader × Option Value
as_text (r, none) = (r, none)
as_text (r, some bs) = (r, some (text bs))

-- The read operation for what was written.
unfoldable pub read_back : WriteOp → DataReader → DataReader × Option Value
read_back (uint8 v) r = as_number (read_uint8 r)
read_back (uint16 v) r = as_number (read_uint 2 r)
read_back (uint32 v) r = as_number (read_uint 4 r)
read_back (uint64 v) r = as_number (read_uint 8 r)
read_back (ufloat16 v) r = as_number (read_ufloat16 r)
read_back (bytes_to_uint64 n v) r = as_number (read_bytes_to_uint64 n r)
read_back (bytes bs) r = as_text (read_bytes (length bs) r)

-- What it gives: a float16 the value that its bits stand for.
abbrev pub value_of : WriteOp → Value
value_of (uint8 v) = number v
value_of (uint16 v) = number v
value_of (uint32 v) = number v
value_of (uint64 v) = number v
value_of (ufloat16 v) = number (ufloat16_value (ufloat16_bits v))
value_of (bytes_to_uint64 n v) = number v
value_of (bytes bs) = text bs

-- The integer fits its bytes.
abbrev pub Fits : WriteOp → Type 0
Fits (uint8 v) = v < 256
Fits (uint16 v) = v < 256 ^ 2
Fits (uint32 v) = v < 256 ^ 4
Fits (uint64 v) = v < 256 ^ 8
Fits (ufloat16 v) = v < 256 ^ 8
Fits (bytes_to_uint64 n v) = (n ≤ 8) × (v < 256 ^ n)
Fits (bytes bs) = Unit {0}

abbrev pub bytes_of : Endianness → WriteOp → List ℕ
bytes_of e (uint8 v) = le_bytes 1 v
bytes_of e (uint16 v) = wire e 2 v
bytes_of e (uint32 v) = wire e 4 v
bytes_of e (uint64 v) = wire e 8 v
bytes_of e (ufloat16 v) = wire e 2 (ufloat16_bits v)
bytes_of e (bytes_to_uint64 n v) = narrow e n v
bytes_of e (bytes bs) = bs

-- The operations in a row, up to the first that fails.
unfoldable pub write_all : List WriteOp → DataWriter → DataWriter × Bool
write_all [] w = (w, true)
write_all (op ∷ ops) w =
    let (u, done) = write op w in let rest = write_all ops u in if done then rest else (u, false)

abbrev pub with_value : Value → DataReader × Option (List Value) → DataReader × Option (List Value)
with_value v (r, none) = (r, none)
with_value v (r, some vs) = (r, some (v ∷ vs))

abbrev pub and_then :
    DataReader × Option Value
    → (DataReader → DataReader × Option (List Value))
    → DataReader × Option (List Value)
and_then (r, none) k = (r, none)
and_then (r, some v) k = with_value v (k r)

unfoldable pub read_all : List WriteOp → DataReader → DataReader × Option (List Value)
unfolding read_back
read_all [] r = (r, some [])
read_all (op ∷ ops) r = and_then (read_back op r) (λ s. read_all ops s)

unfoldable pub bytes_of_all : Endianness → List WriteOp → List ℕ
bytes_of_all e [] = []
bytes_of_all e (op ∷ ops) = bytes_of e op ++ bytes_of_all e ops
