-- ===== src/Codec/Tests.antt =====
-- Runs of base/byte_codec.cc.
use tcp_congestion_mininet.Common.{
  ◌*◌, ◌^◌, ◌≤◌, ◌<◌, ◌≡◌, refl, arith, true, false, some, ◌⊎◌, [], ◌∷◌, ◌++◌,
}
use tcp_congestion_mininet.Common.Lists.{replicate}
use tcp_congestion_mininet.Codec.{
  DataReader, DataWriter, network_order, read_uint, from_le, le_bytes, can_read, on_failure,
  is_done_reading, bytes_remaining, read_bytes, byte_swap, ufloat16_value, ufloat16_bits,
}
use tcp_congestion_mininet.Codec.Views.{IsWriter, IsReader, unread}
use tcp_congestion_mininet.Codec.RoundTrip.{wire}
use tcp_congestion_mininet.Codec.Float16.{ufloat16_value-bits}
use tcp_congestion_mininet.Codec.Failure.{read, uint32, string_piece16, read_fails}
use tcp_congestion_mininet.Common.{List, map}
use tcp_congestion_mininet.Common.Lists.{length}
use tcp_congestion_mininet.Codec.{new_writer, new_reader}
use tcp_congestion_mininet.Codec.Message.{write_all, read_all, value_of, bytes_of_all}
use tcp_congestion_mininet.Codec.Message.Back.{read_all-write_all}
use tcp_congestion_mininet.Codec.Typed
use tcp_congestion_mininet.Codec.Typed.{
  WriteOp, write, bytes_to_uint64, IsTyped, WroteOrNot, write-WroteOrNot,
}

abbrev reader : DataReader
reader = record { buffer = 1 ∷ 2 ∷ 3 ∷ []; len = 3; pos = 0; endianness = network_order }

abbrev writer : DataWriter
writer = record { buf = replicate 5 0; capacity = 5; pos = 0; endianness = network_order }

reader-IsReader : IsReader reader
reader-IsReader = record { size = omega arith; within = omega arith; small = omega arith }

writer-IsWriter : IsWriter writer
writer-IsWriter = record { size = refl; within = omega arith; small = omega arith }

unread-reader : unread reader ≡ wire reader.endianness 2 258 ++ 3 ∷ []
unfolding unread byte_swap le_bytes from_le
unread-reader = refl

ufloat16_value-bits_example :
    ((4097 < 2 ^ 12) × (ufloat16_value (ufloat16_bits 4097) ≡ 4097))
    ⊎ (((2 ^ 12 ≤ 4097)
          × (4097 < 0x3ffc0000000)
          × (ufloat16_value (ufloat16_bits 4097) ≤ 4097)
          × (4097 * 2048 < ufloat16_value (ufloat16_bits 4097) * 2049))
        ⊎ ((0x3ffc0000000 ≤ 4097) × (ufloat16_value (ufloat16_bits 4097) ≡ 0x3ffc0000000)))
ufloat16_value-bits_example = ufloat16_value-bits 4097

too_long : (read uint32 reader).1 ≡ false
unfolding read_uint read_bytes can_read on_failure
too_long = refl

-- An integer of four bytes is too long for the reader's three; a string's length is not read after it.
read_fails_example :
    (is_done_reading (read uint32 reader).0 ≡ true)
    × (bytes_remaining (read uint32 reader).0 ≡ 0)
    × (read string_piece16 (read uint32 reader).0 ≡ ((read uint32 reader).0, false))
read_fails_example = read_fails uint32 string_piece16 reader (omega arith) too_long tt tt

writer-IsTyped : IsTyped writer
writer-IsTyped = record {
  valid = writer-IsWriter;
  bytes = (omega arith, (omega arith, (omega arith, (omega arith, (omega arith, tt)))));
}

write-WroteOrNot_example :
    WroteOrNot true (1 ∷ 1 ∷ 208 ∷ []) writer (write (bytes_to_uint64 3 66000) writer)
unfolding le_bytes
write-WroteOrNot_example = write-WroteOrNot (bytes_to_uint64 3 66000) writer writer-IsTyped tt

-- A header of a byte, an integer of three bytes, a float16 and two bytes, in nine bytes.
abbrev fields : List WriteOp
fields =
    Typed.uint8 7 ∷ bytes_to_uint64 3 70000 ∷ Typed.ufloat16 5000 ∷ Typed.bytes (1 ∷ 2 ∷ []) ∷ []

read_all-write_all_example :
    let (w, ok) = write_all fields (new_writer (replicate 9 0) 9 network_order) in
    ((length (bytes_of_all network_order fields) ≤ 9)
      × (ok ≡ true)
      × ((r : DataReader) × (read_all fields (new_reader w.buf w.pos network_order)
            ≡ (r, some (map value_of fields)))
          × (is_done_reading r ≡ true)))
    ⊎ ((9 < length (bytes_of_all network_order fields)) × (ok ≡ false))
read_all-write_all_example =
    read_all-write_all fields (replicate 9 0) network_order (omega arith)
      (omega arith, ((omega arith, omega arith), (omega arith, (tt, tt))))
