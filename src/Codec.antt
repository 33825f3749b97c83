-- ===== src/Codec.antt =====
-- base/byte_order.h and base/byte_codec.cc: DataWriter and DataReader.
-- A buffer is a list of bytes; an integer in memory is its bytes, lowest first, since the code fixes
-- a little-endian host. The result of a read is `none` where the code returns false, and the state
-- of the reader comes with it.
pub mod Bytes
pub mod Float16
mod Tests
pub mod Views
pub mod RoundTrip
pub mod Failure
pub mod Typed
pub mod Padding
pub mod Message
use tcp_congestion_mininet.Common.{
  ℕ, zero, suc, ◌+◌, ◌-◌, ◌*◌, ◌/◌, ◌%◌, ◌^◌, Bool, true, false, Option, none, some, List, [], ◌∷◌,
  ◌++◌, ltb, leb, ◌==◌, if◌then◌else◌,
}
use tcp_congestion_mininet.Common.Lists.{length, take, drop, replicate}
use tcp_congestion_mininet.Common.Words.{u16_mod, u32_mod, u64_mod, sub32}
use mathlib.Core.List.{reverse}

pub data Endianness : Type 0 where
  network_order host_order : Endianness

-- The `w` bytes of an integer in memory, and the integer that bytes in memory stand for.
unfoldable pub le_bytes : ℕ → ℕ → List ℕ
le_bytes zero v = []
le_bytes (suc w) v = (v % 256) ∷ le_bytes w (v / 256)

unfoldable pub from_le : List ℕ → ℕ
from_le [] = 0
from_le (b ∷ bs) = b + 256 * from_le bs

-- __builtin_bswap16, 32 and 64, at widths 2, 4 and 8: the bytes in reverse.
unfoldable pub byte_swap : ℕ → ℕ → ℕ
byte_swap w x = from_le (reverse (le_bytes w x))

abbrev pub net_to_host : ℕ → ℕ → ℕ
net_to_host w x = byte_swap w x

abbrev pub host_to_net : ℕ → ℕ → ℕ
host_to_net w x = byte_swap w x

abbrev pub swap_if_network : Endianness → ℕ → ℕ → ℕ
swap_if_network network_order w v = byte_swap w v
swap_if_network host_order w v = v

pub record DataReader : Type 0 where
  pub buffer : List ℕ
  pub len : ℕ
  pub pos : ℕ
  pub endianness : Endianness

unfoldable pub new_reader : List ℕ → ℕ → Endianness → DataReader
new_reader buf len e = record { buffer = buf; len = len; pos = 0; endianness = e }

pub can_read : ℕ → DataReader → Bool
can_read bytes r = leb bytes (sub32 r.len r.pos)

pub on_failure : DataReader → DataReader
on_failure r = record r { pos = r.len }

unfoldable pub read_bytes : ℕ → DataReader → DataReader × Option (List ℕ)
unfolding can_read on_failure
read_bytes size r =
    if can_read size r
    then (record r { pos = (r.pos + size) % u32_mod }, some (take size (drop r.pos r.buffer)))
    else (on_failure r, none)

abbrev pub as_value : {A : Type 0} → (A → ℕ) → DataReader × Option A → DataReader × Option ℕ
as_value f (r, none) = (r, none)
as_value f (r, some bs) = (r, some (f bs))

unfoldable pub read_uint8 : DataReader → DataReader × Option ℕ
read_uint8 r = as_value from_le (read_bytes 1 r)

-- ReadUInt16, ReadUInt32 and ReadUInt64, at widths 2, 4 and 8.
unfoldable pub read_uint : ℕ → DataReader → DataReader × Option ℕ
read_uint w r = as_value (λ bs. swap_if_network r.endianness w (from_le bs)) (read_bytes w r)

abbrev pub read_uint16 : DataReader → DataReader × Option ℕ
read_uint16 = read_uint 2

abbrev pub read_uint32 : DataReader → DataReader × Option ℕ
read_uint32 = read_uint 4

abbrev pub read_uint64 : DataReader → DataReader × Option ℕ
read_uint64 = read_uint 8

-- On a host-order reader the bytes fill `*result` from its start, on a network-order one up to its
-- end, where they are then swapped; the rest of it is zero.
pub read_bytes_to_uint64 : ℕ → DataReader → DataReader × Option ℕ
read_bytes_to_uint64 num_len r = elim r.endianness [
  | host_order ↦ as_value (λ bs. from_le (bs ++ replicate (8 - num_len) 0)) (read_bytes num_len r)
  | network_order ↦
      as_value (λ bs. net_to_host 8 (from_le (replicate (8 - num_len) 0 ++ bs)))
        (read_bytes num_len r)
]

-- The value that the sixteen bits of a float16 stand for.
unfoldable pub ufloat16_value : ℕ → ℕ
ufloat16_value value =
    let exponent = value / 2 ^ 11 - 1 in
    if ltb value (2 ^ 12) then value else (value - exponent * 2 ^ 11) * 2 ^ exponent % u64_mod

unfoldable pub read_ufloat16 : DataReader → DataReader × Option ℕ
read_ufloat16 r = as_value ufloat16_value (read_uint16 r)

-- The length is cut to 32 bits where it is compared, and added whole.
pub read_string_piece : ℕ → DataReader → DataReader × Option (List ℕ)
unfolding can_read on_failure
read_string_piece size r =
    if can_read (size % u32_mod) r
    then (record r { pos = (r.pos + size) % u32_mod }, some (take size (drop r.pos r.buffer)))
    else (on_failure r, none)

pub read_string_piece16 : DataReader → DataReader × Option (List ℕ)
read_string_piece16 r =
    let (s, len) = read_uint16 r in
    elim len [ none ↦ (s, none) | some result_len ↦ read_string_piece result_len s ]

pub is_done_reading : DataReader → Bool
is_done_reading r = r.len == r.pos

pub bytes_remaining : DataReader → ℕ
bytes_remaining r = sub32 r.len r.pos

pub record DataWriter : Type 0 where
  pub buf : List ℕ
  pub pos : ℕ
  pub capacity : ℕ
  pub endianness : Endianness

unfoldable pub new_writer : List ℕ → ℕ → Endianness → DataWriter
new_writer buf len e = record { buf = buf; pos = 0; capacity = len; endianness = e }

-- The offset to write at, or none for nullptr.
pub begin_write : ℕ → DataWriter → Option ℕ
begin_write bytes w =
    if ltb w.capacity w.pos
    then none
    else if ltb (w.capacity - w.pos) bytes
    then none
    else some w.pos

-- memcpy of `bs` to the offset `at`
unfoldable pub splice : ℕ → List ℕ → List ℕ → List ℕ
splice at bs buf = take at buf ++ (bs ++ drop (at + length bs) buf)

unfoldable pub write_bytes : List ℕ → DataWriter → DataWriter × Bool
unfolding begin_write splice
write_bytes bs w = elim (begin_write (length bs) w) [
  | none ↦ (w, false)
  | some dst ↦ (record w { buf = splice dst bs w.buf; pos = (w.pos + length bs) % u32_mod }, true)
]

unfoldable pub write_uint8 : ℕ → DataWriter → DataWriter × Bool
write_uint8 value w = write_bytes (le_bytes 1 value) w

-- WriteUInt16, WriteUInt32 and WriteUInt64, at widths 2, 4 and 8.
unfoldable pub write_uint : ℕ → ℕ → DataWriter → DataWriter × Bool
write_uint n value w = write_bytes (le_bytes n (swap_if_network w.endianness n value)) w

abbrev pub write_uint16 : ℕ → DataWriter → DataWriter × Bool
write_uint16 = write_uint 2

abbrev pub write_uint32 : ℕ → DataWriter → DataWriter × Bool
write_uint32 = write_uint 4

abbrev pub write_uint64 : ℕ → DataWriter → DataWriter × Bool
write_uint64 = write_uint 8

pub write_bytes_to_uint64 : ℕ → ℕ → DataWriter → DataWriter × Bool
write_bytes_to_uint64 num_bytes value w =
    if ltb 8 num_bytes then (w, false) else elim w.endianness [
      | host_order ↦ write_bytes (take num_bytes (le_bytes 8 value)) w
      | network_order ↦ write_bytes (drop (8 - num_bytes) (le_bytes 8 (host_to_net 8 value))) w
    ]

-- One round of the binary search for the highest bit.
unfoldable pub shift_round : ℕ → ℕ × ℕ → ℕ × ℕ
shift_round offset (exponent, value) =
    if leb (2 ^ (11 + offset)) value
    then (exponent + offset, value / 2 ^ offset)
    else (exponent, value)

-- The loop over the offsets 16, 8, 4, 2 and 1.
unfoldable pub highest_bits : ℕ → ℕ × ℕ
unfolding shift_round
highest_bits value =
    shift_round 1 (shift_round 2 (shift_round 4 (shift_round 8 (shift_round 16 (0, value)))))

unfoldable pub ufloat16_bits : ℕ → ℕ
ufloat16_bits value =
    let (exponent, mantissa) = highest_bits value in
    if ltb value (2 ^ 12)
    then value
    else if leb 0x3ffc0000000 value
    then 0xffff
    else (mantissa + exponent * 2 ^ 11) % u16_mod

unfoldable pub write_ufloat16 : ℕ → DataWriter → DataWriter × Bool
write_ufloat16 value w = write_uint 2 (ufloat16_bits value) w
