-- ===== src/Codec/RoundTrip.antt =====
-- What WriteUIntN writes, ReadUIntN reads.
use tcp_congestion_mininet.Common.{
  ℕ, ◌+◌, ◌^◌, ◌<◌, ◌≤◌, ◌≡◌, ap, subst, ◌∙◌, List, ◌++◌, arith, true, false, Option, some, ◌⊎◌,
  inl, inr,
}
use tcp_congestion_mininet.Common.Lists.{
  length, take, drop, take-append, drop-append, length-append,
}
use tcp_congestion_mininet.Codec.{
  DataReader, DataWriter, Endianness, le_bytes, from_le, swap_if_network, as_value, read_bytes,
  read_uint, write_uint, network_order,
}
use tcp_congestion_mininet.Codec.Bytes.{length-le_bytes, encoded_back, le_bytes-byte_swap}
use tcp_congestion_mininet.Codec.Views.{
  IsWriter, Appended, write_bytes_lem, IsReader, unread, length-unread, read_bytes_lem,
}
use mathlib.Core.List.{reverse}
use native.Mathlib.Decide.{dec_le}

-- The bytes of an `n`-byte integer on the wire.
abbrev pub wire : Endianness → ℕ → ℕ → List ℕ
wire e n v = le_bytes n (swap_if_network e n v)

-- The read gives `x` and leaves a reader of `r`'s order, with `rest` to read.
abbrev pub Reads : {A : Type 0} → DataReader → List ℕ → A → DataReader × Option A → Type 0
Reads r rest x out =
    (s : DataReader) × (out ≡ (s, some x))
    × IsReader s
    × (s.endianness ≡ r.endianness)
    × (unread s ≡ rest)

pub read_bytes-wire :
    (bs rest : List ℕ) (r : DataReader)
    → IsReader r
    → unread r ≡ bs ++ rest
    → Reads r rest bs (read_bytes (length bs) r)
read_bytes-wire bs rest r valid e =
    let n = length bs in
    let enough : r.pos + n ≤ r.len =
      omega (arith, length-unread r valid, ap length e, length-append bs rest, valid.within) in
    let (s, q, c) = (read_bytes_lem n r valid (omega (arith, valid.small))).0 enough in
    let head : take n (unread r) ≡ bs = ap (take n) e ∙ take-append bs rest in
    let tail : drop n (unread r) ≡ rest = ap (drop n) e ∙ drop-append bs rest in
    (s, q ∙ ap (λ l. (s, some l)) head, c.valid, c.same_order, c.rest ∙ tail)

-- The bytes read as a value.
pub as_value-wire :
    (f : List ℕ → ℕ) (n v : ℕ) (bs rest : List ℕ) (r : DataReader)
    → IsReader r
    → length bs ≡ n
    → f bs ≡ v
    → unread r ≡ bs ++ rest
    → Reads r rest v (as_value f (read_bytes n r))
as_value-wire f n v bs rest r valid size value e =
    let (s, q, valid_s, order, left) = read_bytes-wire bs rest r valid e in
    let p : read_bytes n r ≡ (s, some bs) = subst (λ k. read_bytes k r ≡ (s, some bs)) size q in
    (s, rw p (ap (λ x. (s, some x)) value), valid_s, order, left)

-- A valid reader whose next bytes are an integer's, of fewer than 2 ^ 32 bytes, returns the
-- integer, and then stands behind them.
pub read_uint-wire :
    (n v : ℕ) (r : DataReader) (rest : List ℕ)
    → IsReader r
    → n < 0x100000000
    → v < 256 ^ n
    → unread r ≡ wire r.endianness n v ++ rest
    → Reads r rest v (read_uint n r)
unfolding read_uint
read_uint-wire n v r rest valid small fits e =
    as_value-wire (λ bs. swap_if_network r.endianness n (from_le bs)) n v (wire r.endianness n v)
      rest r valid (length-le_bytes n _) (encoded_back r.endianness n v fits) e

-- Writing an integer appends its bytes: all of them, or none where they do not fit.
pub write_uint_lem :
    (n v : ℕ) (w : DataWriter)
    → IsWriter w
    → ((w.pos + n ≤ w.capacity)
        × ((write_uint n v w).1 ≡ true)
        × Appended w (wire w.endianness n v) (write_uint n v w).0)
      ⊎ ((w.capacity < w.pos + n) × (write_uint n v w ≡ (w, false)))
unfolding write_uint
write_uint_lem n v w valid =
    let bs = wire w.endianness n v in
    let size : length bs ≡ n = length-le_bytes n _ in
    elim (dec_le (w.pos + n) w.capacity) [
      | yes h ↦
          let (ok, done) = (write_bytes_lem bs w valid).0 (omega (arith, size)) in inl (h, ok, done)
      | no h ↦ inr (omega arith, (write_bytes_lem bs w valid).1 (omega (arith, size)))
    ]

-- In network order the bytes on the wire are the integer's, highest first.
pub wire-network : (n v : ℕ) → wire network_order n v ≡ reverse (le_bytes n v)
wire-network n v = le_bytes-byte_swap n v
