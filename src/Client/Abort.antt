-- ===== src/Client/Abort.antt =====
-- The first packet of tcp/tcp_client.cc where the kernel does not take it whole.
use tcp_congestion_mininet.Common.{
  ℕ, suc, ◌-◌, ◌≡◌, refl, ap, ◌∙◌, arith, true, false, not, List, [], ◌∷◌, ◌==◌, if-elim, min,
}
use tcp_congestion_mininet.Common.Lists.{length}
use tcp_congestion_mininet.Common.Int.{is_positive, is_zero}
use tcp_congestion_mininet.Socket.{
  Outcome, ok, aborted, ◌>>=◌, check, Wrote, accepts, would_block, breaks,
}
use tcp_congestion_mininet.Client.{TcpClient, max_line}
use tcp_congestion_mininet.Client.Send.{
  answer_write, get_batch_size, increase_write_bytes, header_message, write_batch, write_first,
  next_write_time,
}
use tcp_congestion_mininet.Client.Write.{write_message-open}
use tcp_congestion_mininet.Client.Header.{length-header_message}
use tcp_congestion_mininet.Client.Progress.{IsSending, get_batch_size_lem, not_zero}
use tcp_congestion_mininet.Client.Live.{TakesFirst}

answer_write-short :
    (msg : List ℕ) (c : TcpClient) (l : List Wrote) (k : TcpClient → ℕ → Outcome TcpClient)
    → length msg ≡ 1400
    → ¬ (TakesFirst false l)
    → (answer_write msg c l >>= λ (d, ret). check (ret == max_line) (k d ret)) ≡ aborted
unfolding answer_write
answer_write-short msg c [] k size t = refl
answer_write-short msg c (accepts n ∷ l) k size t =
    let short : ((min (suc n) (length msg)) == 1400) ≡ false = ground (arith, size, t) in
    rw short refl
answer_write-short msg c (would_block ∷ l) k size t = refl
answer_write-short msg c (breaks ∷ l) k size t = refl

write_first-short :
    (c : TcpClient)
    → is_positive c.sockfd ≡ true
    → ¬ (TakesFirst false c.wire.answers)
    → write_first c ≡ aborted
unfolding write_first
write_first-short c open_ short =
    rw (write_message-open (header_message c.client_id c.total_byte) c open_) (
      answer_write-short (header_message c.client_id c.total_byte) c c.wire.answers
        (λ d ret. write_batch (record (increase_write_bytes ret d) { first_sent = true }))
        (length-header_message c.client_id c.total_byte) short)

-- The first packet of an open client whose counters agree with the wire aborts the process where
-- the kernel does not take all of it at once: where it takes less, would block, or breaks.
pub next_write_time-aborted :
    (next : ℕ) (c : TcpClient)
    → IsSending c
    → is_positive c.sockfd ≡ true
    → c.first_sent ≡ false
    → ¬ (TakesFirst false c.wire.answers)
    → next_write_time next c ≡ aborted
unfolding next_write_time
next_write_time-aborted next c v open_ fresh short =
    let unsent : c.send_byte ≡ 0 = (v.before fresh).0 in
    let n = min 14000 (c.total_byte - c.send_byte) in
    let some_left : is_zero (get_batch_size c) ≡ false =
      ap is_zero (get_batch_size_lem c v.total_high v.within)
      ∙ not_zero n (omega (arith, v.total_low)) in
    if-elim (λ (r : Outcome (TcpClient × ℕ)). r ≡ aborted) (not (is_positive c.sockfd))
      (λ closed. absurd (ground arith))
      (λ _.
        if-elim (λ (r : Outcome (TcpClient × ℕ)). r ≡ aborted) (is_zero (get_batch_size c))
          (λ done. absurd (ground arith))
          (λ _.
            if-elim (λ (r : Outcome (TcpClient × ℕ)). r ≡ aborted) c.first_sent
              (λ sent. absurd (ground arith))
              (λ _. ap (λ r. r >>= λ d. ok (d, next)) (write_first-short c open_ short))))
