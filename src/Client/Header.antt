-- ===== src/Client/Header.antt =====
-- The first packet of tcp/tcp_client.cc: 1400 bytes that start with the client's id and its total.
use tcp_congestion_mininet.Common.{
  ℕ, List, [], ◌∷◌, ◌/◌, ◌%◌, ◌+◌, ◌≤◌, ◌≡◌, refl, ap, ap₂, sym, ◌∙◌, inl, inr, arith, ◌++◌,
}
use tcp_congestion_mininet.Common.Lists.{length, take, replicate}
use tcp_congestion_mininet.Codec.{
  DataWriter, network_order, new_writer, write_uint, le_bytes, swap_if_network,
}
use tcp_congestion_mininet.Codec.Bytes.{length-le_bytes, le_bytes-byte_swap}
use tcp_congestion_mininet.Codec.Views.{IsWriter, written, Appended}
use tcp_congestion_mininet.Codec.RoundTrip.{wire, write_uint_lem}
use tcp_congestion_mininet.Client.{max_line}
use tcp_congestion_mininet.Client.Send.{header_message}

written_integer :
    (n v : ℕ) (w : DataWriter)
    → IsWriter w
    → w.pos + n ≤ w.capacity
    → Appended w (wire w.endianness n v) (write_uint n v w).0
written_integer n v w valid h = elim (write_uint_lem n v w valid) [
  | inl (_, _, d) ↦ d
  | inr (full, _) ↦ absurd (omega arith)
]

abbrev blank : DataWriter
unfolding new_writer
blank = new_writer (replicate 1400 0) max_line network_order

blank-IsWriter : IsWriter blank
unfolding new_writer
blank-IsWriter = record { size = refl; within = omega arith; small = omega arith }

module _ (client_id total_byte : ℕ) where
  first : Appended blank (wire network_order 4 client_id) (write_uint 4 client_id blank).0
  unfolding new_writer
  first = written_integer 4 client_id blank blank-IsWriter (omega arith)

  second :
      let w = (write_uint 4 client_id blank).0 in
      Appended w (wire w.endianness 4 total_byte) (write_uint 4 total_byte w).0
  second = written_integer 4 total_byte (write_uint 4 client_id blank).0 first.valid (
      unfold new_writer in
      omega (
        arith,
        first.moved,
        first.same_capacity,
        length-le_bytes 4 (swap_if_network network_order 4 client_id),
      ))

  pub length-header_message : length (header_message client_id total_byte) ≡ 1400
  unfolding header_message new_writer
  length-header_message =
      omega (arith, second.valid.size, second.same_capacity, first.same_capacity)

  pub take_wire :
      take 8 (header_message client_id total_byte)
      ≡ wire network_order 4 client_id ++ wire network_order 4 total_byte
  unfolding header_message new_writer written
  take_wire =
      let w = (write_uint 4 client_id blank).0 in
      let x = (write_uint 4 total_byte w).0 in
      let size : x.pos ≡ 8 = omega (
        arith,
        first.moved,
        second.moved,
        length-le_bytes 4 (swap_if_network network_order 4 client_id),
        length-le_bytes 4 (swap_if_network w.endianness 4 total_byte),
      ) in
      ap (λ k. take k x.buf) (sym size)
      ∙ second.bytes
      ∙ ap₂ ◌++◌ first.bytes (ap (λ e. wire e 4 total_byte) first.same_order)

-- The four bytes of a number, highest first.
abbrev pub four_bytes : ℕ → List ℕ
four_bytes v = v / 0x1000000 % 256 ∷ v / 0x10000 % 256 ∷ v / 0x100 % 256 ∷ v % 256 ∷ []

wire-four_bytes : (v : ℕ) → wire network_order 4 v ≡ four_bytes v
wire-four_bytes v =
    le_bytes-byte_swap 4 v
    ∙ (unfold le_bytes in
        ap₂ (λ a b. a ∷ b ∷ v / 256 % 256 ∷ v % 256 ∷ []) (omega arith) (omega arith))

-- The packet of a client starts with the client's number and its total, four bytes each, in which the
-- highest byte comes first.
pub take-header_message :
    (client_id total_byte : ℕ)
    → take 8 (header_message client_id total_byte) ≡ four_bytes client_id ++ four_bytes total_byte
take-header_message client_id total_byte =
    take_wire client_id total_byte
    ∙ ap₂ ◌++◌ (wire-four_bytes client_id) (wire-four_bytes total_byte)
