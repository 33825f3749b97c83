-- ===== src/Codec/Message/Back.antt =====
-- The fields of a message, from the writer to the reader.
use tcp_congestion_mininet.Common.{
  ℕ, ◌+◌, ◌^◌, ◌≤◌, ◌<◌, ◌≡◌, refl, ap, ap₂, sym, ◌∙◌, arith, List, [], ◌∷◌, ◌++◌, map, true, false,
  Option, some, ◌⊎◌, inl, inr, if-elim, ltb, leb,
}
use tcp_congestion_mininet.Common.Lists.{length, All, length-append}
use tcp_congestion_mininet.Codec.{
  DataReader, DataWriter, Endianness, le_bytes, from_le, ufloat16_bits, ufloat16_value, as_value,
  new_reader, new_writer, read_uint8, read_ufloat16, write_bytes, write_uint8, write_uint,
  write_ufloat16, is_done_reading,
}
use tcp_congestion_mininet.Codec.Bytes.{length-le_bytes, from_le-le_bytes}
use tcp_congestion_mininet.Codec.Views.{
  IsWriter, written, Appended, write_bytes_lem, IsReader, unread, length-unread,
}
use tcp_congestion_mininet.Codec.RoundTrip.{Reads, read_bytes-wire, as_value-wire, read_uint-wire}
use tcp_congestion_mininet.Codec.Padding.{write_bytes_to_uint64-narrow, read_bytes_to_uint64-narrow}
use tcp_congestion_mininet.Codec.Typed.{
  WriteOp, uint8, uint16, uint32, uint64, ufloat16, bytes_to_uint64, bytes, write,
}
use mathlib.Core.List.{append_assoc, append-nil}
use native.Mathlib.Decide.{dec_le}
use tcp_congestion_mininet.Codec.Message.{
  number, as_number, as_text, with_value, and_then, read_back, value_of, Fits, bytes_of, write_all,
  read_all, bytes_of_all,
}

write-bytes_of :
    (op : WriteOp) (w : DataWriter)
    → Fits op
    → write op w ≡ write_bytes (bytes_of w.endianness op) w
unfolding write_uint8 write_uint write_ufloat16
write-bytes_of (uint8 v) w h = refl
write-bytes_of (uint16 v) w h = refl
write-bytes_of (uint32 v) w h = refl
write-bytes_of (uint64 v) w h = refl
write-bytes_of (ufloat16 v) w h = refl
write-bytes_of (bytes_to_uint64 n v) w (few, h) = write_bytes_to_uint64-narrow n v few h w
write-bytes_of (bytes bs) w h = refl

number-Reads :
    (r : DataReader) (rest : List ℕ) (v : ℕ) (x : DataReader × Option ℕ)
    → Reads r rest v x
    → Reads r rest (number v) (as_number x)
number-Reads r rest v x (s, e, valid, order, left) = (s, ap as_number e, valid, order, left)

value-Reads :
    (f : ℕ → ℕ) (r : DataReader) (rest : List ℕ) (v : ℕ) (x : DataReader × Option ℕ)
    → Reads r rest v x
    → Reads r rest (f v) (as_value f x)
value-Reads f r rest v x (s, e, valid, order, left) = (s, ap (as_value f) e, valid, order, left)

ufloat16_bits_lt : (v : ℕ) → ufloat16_bits v < 256 ^ 2
unfolding ufloat16_bits
ufloat16_bits_lt v =
    if-elim (λ (n : ℕ). n < 256 ^ 2) (ltb v (2 ^ 12)) (λ small. ground (arith, small))
      (λ _.
        if-elim (λ (n : ℕ). n < 256 ^ 2) (leb 0x3ffc0000000 v) (λ _. omega arith)
          (λ _. omega arith))

-- A field is read back.
read_back-Reads :
    (op : WriteOp) (r : DataReader) (rest : List ℕ)
    → IsReader r
    → Fits op
    → unread r ≡ bytes_of r.endianness op ++ rest
    → Reads r rest (value_of op) (read_back op r)
unfolding read_back read_uint8 read_ufloat16
read_back-Reads (uint8 v) r rest valid h e = number-Reads r rest v _ (
    as_value-wire from_le 1 v (le_bytes 1 v) rest r valid (length-le_bytes 1 v)
      (from_le-le_bytes 1 v (omega arith)) e)
read_back-Reads (uint16 v) r rest valid h e =
    number-Reads r rest v _ (read_uint-wire 2 v r rest valid (omega arith) h e)
read_back-Reads (uint32 v) r rest valid h e =
    number-Reads r rest v _ (read_uint-wire 4 v r rest valid (omega arith) h e)
read_back-Reads (uint64 v) r rest valid h e =
    number-Reads r rest v _ (read_uint-wire 8 v r rest valid (omega arith) h e)
read_back-Reads (ufloat16 v) r rest valid h e =
    number-Reads r rest (ufloat16_value (ufloat16_bits v)) _ (
      value-Reads ufloat16_value r rest (ufloat16_bits v) _
        (read_uint-wire 2 (ufloat16_bits v) r rest valid (omega arith) (ufloat16_bits_lt v) e))
read_back-Reads (bytes_to_uint64 n v) r rest valid (few, h) e =
    number-Reads r rest v _ (read_bytes_to_uint64-narrow n v few h r rest valid e)
read_back-Reads (bytes bs) r rest valid h e =
    let (s, q, valid_s, order, left) = read_bytes-wire bs rest r valid e in
    (s, ap as_text q, valid_s, order, left)

pub read_all-Reads :
    (ops : List WriteOp) (r : DataReader) (rest : List ℕ)
    → IsReader r
    → All Fits ops
    → unread r ≡ bytes_of_all r.endianness ops ++ rest
    → Reads r rest (map value_of ops) (read_all ops r)
unfolding read_all bytes_of_all
read_all-Reads [] r rest valid h e = (r, refl, valid, refl, e)
read_all-Reads (op ∷ ops) r rest valid (fits, h) e =
    let (s, q, valid_s, order, left) =
      read_back-Reads op r (bytes_of_all r.endianness ops ++ rest) valid fits
        (e ∙ append_assoc (bytes_of r.endianness op) (bytes_of_all r.endianness ops) rest) in
    let (t, p, valid_t, same, end) =
      read_all-Reads ops s rest valid_s h
        (left ∙ ap (λ o. bytes_of_all o ops ++ rest) (sym order)) in
    (
      t,
      ap (λ x. and_then x (λ y. read_all ops y)) q ∙ ap (with_value (value_of op)) p,
      valid_t,
      same ∙ order,
      end,
    )

-- The fields are written if all of them fit, and then they are what was written.
pub write_all_lem :
    (ops : List WriteOp) (w : DataWriter)
    → IsWriter w
    → All Fits ops
    → ((w.pos + length (bytes_of_all w.endianness ops) ≤ w.capacity)
        × ((write_all ops w).1 ≡ true)
        × Appended w (bytes_of_all w.endianness ops) (write_all ops w).0)
      ⊎ ((w.capacity < w.pos + length (bytes_of_all w.endianness ops))
          × ((write_all ops w).1 ≡ false))
unfolding write_all bytes_of_all
write_all_lem [] w valid h = inl (
  omega (arith, valid.within),
  refl,
  record {
    valid = valid;
    same_capacity = refl;
    same_order = refl;
    moved = omega arith;
    bytes = sym (append-nil (written w));
  },
)
write_all_lem (op ∷ ops) w valid (fits, h) =
    let bs = bytes_of w.endianness op in
    let more = bytes_of_all w.endianness ops in
    let is = write-bytes_of op w fits in
    let sum = length-append bs more in
    elim (dec_le (w.pos + length bs) w.capacity) [
      | no full ↦
          inr (omega (arith, sum), rw (is, (write_bytes_lem bs w valid).1 (omega arith)) refl)
      | yes room ↦
          let (done, a) = (write_bytes_lem bs w valid).0 room in
          let u = (write_bytes bs w).0 in
          let same = ap (λ o. bytes_of_all o ops) a.same_order in
          let size = ap length same in
          rw (is, done)
            (elim (write_all_lem ops u a.valid h) [
              | inl (fit, all, b) ↦ inl (
                omega (arith, sum, fit, size, a.moved, a.same_capacity),
                all,
                record {
                  valid = b.valid;
                  same_capacity = b.same_capacity ∙ a.same_capacity;
                  same_order = b.same_order ∙ a.same_order;
                  moved = omega (arith, b.moved, a.moved, sum, size);
                  bytes = b.bytes ∙ ap₂ ◌++◌ a.bytes same ∙ append_assoc (written w) bs more;
                },
              )
              | inr (full, some_failed) ↦
                  inr (omega (arith, sum, full, size, a.moved, a.same_capacity), some_failed)
            ])
    ]

unread-is_done : (r : DataReader) → IsReader r → unread r ≡ [] → is_done_reading r ≡ true
unfolding is_done_reading
unread-is_done r v e = ground (arith, length-unread r v, ap length e, v.within)

-- Fields whose integers fit their bytes, and float16 fields of fewer than 2 ^ 64, written one
-- after the other into a new buffer of fewer than 2 ^ 32 bytes, in either byte order: if the
-- buffer has room for all of them, every write succeeds, and a reader of what was written reads
-- the same integers and byte strings back, and a float16 as the value that its bits stand for,
-- and is done; otherwise a write fails.
pub read_all-write_all :
    (ops : List WriteOp) (buf : List ℕ) (e : Endianness)
    → length buf < 0x100000000
    → All Fits ops
    → let (w, ok) = write_all ops (new_writer buf (length buf) e) in
      ((length (bytes_of_all e ops) ≤ length buf)
        × (ok ≡ true)
        × ((r : DataReader) × (read_all ops (new_reader w.buf w.pos e)
              ≡ (r, some (map value_of ops)))
            × (is_done_reading r ≡ true)))
      ⊎ ((length buf < length (bytes_of_all e ops)) × (ok ≡ false))
unfolding new_writer new_reader
read_all-write_all ops buf e small h =
    let w = new_writer buf (length buf) e in
    let valid : IsWriter w = record { size = refl; within = omega arith; small = small } in
    elim (write_all_lem ops w valid h) [
      | inr (full, failed) ↦ inr (omega (arith, full), failed)
      | inl (fit, done, a) ↦
          let u = (write_all ops w).0 in
          let r = new_reader u.buf u.pos e in
          let reads : IsReader r = record {
            size = omega (arith, a.valid.size, a.valid.within);
            within = omega arith;
            small = omega (arith, a.valid.within, a.valid.small);
          } in
          let all : unread r ≡ bytes_of_all e ops ++ [] =
            unfold unread in unfold written in (a.bytes ∙ sym (append-nil (bytes_of_all e ops))) in
          let (s, q, valid_s, order, left) = read_all-Reads ops r [] reads h all in
          inl (omega (arith, fit), done, (s, q, unread-is_done s valid_s left))
    ]
