-- ===== src/Client/Send.antt =====
-- tcp/tcp_client.cc: WriteMessage, WritePacketInBatch, GetBatchSize and NextWriteTime.
use tcp_congestion_mininet.Common.{
  ℕ, zero, suc, ◌+◌, ◌-◌, ◌*◌, ◌%◌, true, not, List, [], ◌∷◌, ◌++◌, ◌==◌, if◌then◌else◌, min,
}
use tcp_congestion_mininet.Common.Lists.{length, take, replicate}
use tcp_congestion_mininet.Common.Words.{u32_mod, sub32}
use tcp_congestion_mininet.Common.Int.{ℤ, pos, negsuc, is_positive, is_zero, signed32, to_nat}
use tcp_congestion_mininet.Codec.{network_order, new_writer, write_uint32}
use tcp_congestion_mininet.Socket.{
  Outcome, ok, aborted, ◌>>=◌, check, Wrote, accepts, would_block, breaks, Wire, taken,
}
use tcp_congestion_mininet.Client.{TcpClient, max_line, packet_batch_size}

unfoldable pub increase_write_bytes : ℕ → TcpClient → TcpClient
increase_write_bytes size c = record c { send_byte = (c.send_byte + size) % u32_mod }

unfoldable pub get_batch_size : TcpClient → ℤ
get_batch_size c = elim (signed32 (sub32 c.total_byte c.send_byte)) [
  | pos n ↦ pos (min (packet_batch_size * 1400) n)
  | negsuc n ↦ negsuc n
]

-- `write` and the test of errno, on the kernel's answers.
unfoldable pub answer_write : List ℕ → TcpClient → List Wrote → Outcome (TcpClient × ℕ)
answer_write msg c [] = ok (c, 0)
answer_write msg c (accepts k ∷ rest) =
    let n = taken k (length msg) in
    let wire : Wire = record { answers = rest; stream = c.wire.stream ++ take n msg } in
    ok (record c { wire = wire }, n)
answer_write msg c (would_block ∷ rest) =
    ok (record c { wire = record (c.wire) { answers = rest } }, 0)
answer_write msg c (breaks ∷ rest) = aborted

unfoldable pub write_message : List ℕ → TcpClient → Outcome (TcpClient × ℕ)
unfolding answer_write
write_message msg c = if is_positive c.sockfd then answer_write msg c c.wire.answers else ok (c, 0)

-- The loop with `remain` bytes to go and `total` written. A round writes at least one byte, so
-- `remain` rounds are enough.
unfoldable pub write_packet_loop : ℕ → ℕ → ℕ → TcpClient → Outcome (TcpClient × ℕ)
write_packet_loop zero remain total c = ok (c, total)
write_packet_loop (suc fuel) remain total c =
    let round = write_message (replicate (min remain 1400) 0) c >>= λ (d, ret).
    let rest = write_packet_loop fuel (remain - ret) (total + ret) d in
    if ret == 0 then ok (d, total) else rest in
    if remain == 0 then ok (c, total) else round

unfoldable pub write_packet_in_batch : ℤ → TcpClient → Outcome (TcpClient × ℕ)
write_packet_in_batch length c = write_packet_loop (to_nat length) (to_nat length) 0 c

-- `msg` of the first write.
unfoldable pub header_message : ℕ → ℕ → List ℕ
header_message client_id total_byte =
    let w = new_writer (replicate 1400 0) max_line network_order in
    let w1 = (write_uint32 client_id w).0 in (write_uint32 total_byte w1).0.buf

unfoldable pub write_batch : TcpClient → Outcome TcpClient
write_batch c =
    write_packet_in_batch (get_batch_size c) c >>= λ (d, write). ok (increase_write_bytes write d)

unfoldable pub write_first : TcpClient → Outcome TcpClient
write_first c = write_message (header_message c.client_id c.total_byte) c >>= λ (d, ret).
    check (ret == max_line)
      (write_batch (record (increase_write_bytes ret d) { first_sent = true }))

-- The return value is the delay to the next call, in milliseconds; `next` is nextInt(0, 10).
unfoldable pub next_write_time : ℕ → TcpClient → Outcome (TcpClient × ℕ)
next_write_time next c =
    let first = write_first c >>= λ d. ok (d, next) in
    let more = write_batch c >>= λ d. ok (d, next) in
    if not (is_positive c.sockfd)
    then ok (c, 0)
    else if is_zero (get_batch_size c)
    then ok (c, 0)
    else if c.first_sent
    then more
    else first

-- The calls of WriteEventTimer by the event loop, with nextInt's answer in each.
unfoldable pub run_timer : List ℕ → TcpClient → Outcome TcpClient
run_timer [] c = ok c
run_timer (next ∷ nexts) c = next_write_time next c >>= λ (d, _). run_timer nexts d
