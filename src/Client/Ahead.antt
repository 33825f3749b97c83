-- ===== src/Client/Ahead.antt =====
-- One call of the timer of tcp/tcp_client.cc under a kernel that takes its writes.
use tcp_congestion_mininet.Common.{
  ℕ, ◌+◌, ◌-◌, ◌%◌, ◌≤◌, ◌<◌, ◌≡◌, refl, ap, sym, subst, ◌∙◌, arith, true, false, not, if-elim, min,
}
use tcp_congestion_mininet.Common.Lists.{length}
use tcp_congestion_mininet.Common.Int.{is_positive, is_zero}
use tcp_congestion_mininet.Socket.{
  IsAccepting, Outcome, ok, aborted, ◌>>=◌, Returns, Returns-bind, Returns-map, Wire,
}
use tcp_congestion_mininet.Client.{TcpClient}
use tcp_congestion_mininet.Client.Send.{
  write_packet_in_batch, get_batch_size, increase_write_bytes, write_batch, write_first,
  next_write_time,
}
use tcp_congestion_mininet.Client.Write.{Batch, write_packet_loop-Batch}
use tcp_congestion_mininet.Client.Answers.{TookAll, write_packet_loop-TookAll}
use tcp_congestion_mininet.Client.Live.{TakesFirst, after_header, write_first-bind}
use tcp_congestion_mininet.Client.Progress.{IsSending, get_batch_size_lem, not_zero}

-- What one batch did: it sent as much as it wanted.
record Advanced (c : TcpClient) (d : TcpClient) : Type 0 where
  send : d.send_byte ≡ c.send_byte + min 14000 (c.total_byte - c.send_byte)
  total : d.total_byte ≡ c.total_byte
  socket : d.sockfd ≡ c.sockfd
  first : d.first_sent ≡ c.first_sent
  accepting : IsAccepting d.wire.answers
  used : length c.wire.answers ≤ length d.wire.answers + min 14000 (c.total_byte - c.send_byte)

counted-Advanced :
    (c : TcpClient) (w : Wire) (n t : ℕ)
    → c.total_byte < 0x80000000
    → c.send_byte ≤ c.total_byte
    → n ≡ min 14000 (c.total_byte - c.send_byte)
    → TookAll n 0 c (record c { wire = w }, t)
    → Advanced c (increase_write_bytes t (record c { wire = w }))
unfolding increase_write_bytes
counted-Advanced c w n t high within e b = record {
  send = omega (arith, b.whole);
  total = refl;
  socket = refl;
  first = refl;
  accepting = b.accepting;
  used = omega (arith, b.used);
}

write_batch-Advanced :
    (c : TcpClient)
    → c.total_byte < 0x80000000
    → c.send_byte ≤ c.total_byte
    → is_positive c.sockfd ≡ true
    → IsAccepting c.wire.answers
    → min 14000 (c.total_byte - c.send_byte) ≤ length c.wire.answers
    → Returns (Advanced c) (write_batch c)
unfolding write_batch write_packet_in_batch
write_batch-Advanced c high within open_ a room =
    let n = min 14000 (c.total_byte - c.send_byte) in
    rw (get_batch_size_lem c high within) (
      go _ (write_packet_loop-Batch n n 0 c)
        (write_packet_loop-TookAll n n 0 c (omega arith) open_ a room))
  where
    go :
        (r : Outcome (TcpClient × ℕ))
        → Batch (min 14000 (c.total_byte - c.send_byte)) 0 c r
        → Returns (TookAll (min 14000 (c.total_byte - c.send_byte)) 0 c) r
        → Returns (Advanced c) (r >>= λ (d, write). ok (increase_write_bytes write d))
    go aborted b t = t
    go (ok (d, n)) (k, sum, le, s) t =
        subst (λ x. Advanced c (increase_write_bytes n x)) (sym s.same)
          (counted-Advanced c d.wire _ n high within refl
            (record { whole = t.whole; accepting = t.accepting; used = t.used }))

-- A client with an open socket, whose kernel has an answer for each byte to come.
pub record IsReady (c : TcpClient) : Type 0 where
  pub opened : is_positive c.sockfd ≡ true
  pub accepting : IsAccepting c.wire.answers
  pub room : c.total_byte - c.send_byte ≤ length c.wire.answers
  pub first : TakesFirst c.first_sent c.wire.answers

-- What a call of the timer did for a client with something to send.
pub record Ahead (c : TcpClient) (d : TcpClient) : Type 0 where
  pub ready : IsReady d
  pub more : c.send_byte < d.send_byte
  pub sent : d.first_sent ≡ true

write_batch-Ahead :
    (c d : TcpClient)
    → d.total_byte < 0x80000000
    → d.send_byte ≤ d.total_byte
    → is_positive d.sockfd ≡ true
    → IsAccepting d.wire.answers
    → d.total_byte - d.send_byte ≤ length d.wire.answers
    → d.first_sent ≡ true
    → c.send_byte < d.send_byte + min 14000 (d.total_byte - d.send_byte)
    → Returns (Ahead c) (write_batch d)
write_batch-Ahead c d high within open_ a room f more =
    Returns-map (Advanced d) (Ahead c) (write_batch d)
      (λ e v. record {
        ready = record {
          opened = ap is_positive v.socket ∙ open_;
          accepting = v.accepting;
          room = omega (arith, v.used, v.send, v.total);
          first = subst (λ b. TakesFirst b e.wire.answers) (sym (v.first ∙ f)) tt;
        };
        more = omega (arith, v.send);
        sent = v.first ∙ f;
      })
      (write_batch-Advanced d high within open_ a (omega arith))

header-Ahead :
    (c : TcpClient) (w : Wire)
    → IsSending c
    → is_positive c.sockfd ≡ true
    → IsAccepting w.answers
    → c.total_byte - c.send_byte ≤ length w.answers + 1
    → c.send_byte ≡ 0
    → Returns (Ahead c) (write_batch (after_header (record c { wire = w }) 1400))
unfolding after_header increase_write_bytes
header-Ahead c w v open_ a room unsent =
    let d : TcpClient = record c {
      wire = w;
      send_byte = (c.send_byte + 1400) % 0x100000000;
      first_sent = true;
    } in
    let sent : (c.send_byte + 1400) % 0x100000000 ≡ 1400 = omega arith in
    write_batch-Ahead c d v.total_high (omega (arith, v.total_low)) open_ a (omega arith) refl
      (omega arith)

write_first-Ahead :
    (c : TcpClient)
    → IsSending c
    → IsReady c
    → c.first_sent ≡ false
    → Returns (Ahead c) (write_first c)
write_first-Ahead c v r fresh =
    write_first-bind (Ahead c) c r.opened (subst (λ b. TakesFirst b c.wire.answers) fresh r.first)
      (λ d h.
        subst (λ x. Returns (Ahead c) (write_batch (after_header x 1400))) (sym h.same)
          (header-Ahead c d.wire v r.opened (h.accepting r.accepting)
            (omega (arith, r.room, h.used)) (v.before fresh).0))

pub next_write_time-Ahead :
    (next : ℕ) (c : TcpClient)
    → IsSending c
    → IsReady c
    → c.send_byte < c.total_byte
    → Returns (λ (d, _). Ahead c d) (next_write_time next c)
unfolding next_write_time
next_write_time-Ahead next c v r some_left =
    let n = min 14000 (c.total_byte - c.send_byte) in
    let size = get_batch_size_lem c v.total_high v.within in
    if-elim (Returns (λ ((d, _) : TcpClient × ℕ). Ahead c d)) (not (is_positive c.sockfd))
      (λ closed. absurd (ground (arith, r.opened)))
      (λ _.
        if-elim (Returns (λ ((d, _) : TcpClient × ℕ). Ahead c d)) (is_zero (get_batch_size c))
          (λ done. absurd (ground (arith, ap is_zero size, not_zero n (omega arith))))
          (λ _.
            if-elim (Returns (λ ((d, _) : TcpClient × ℕ). Ahead c d)) c.first_sent
              (λ f.
                Returns-bind (Ahead c) (λ (d, _). Ahead c d) (write_batch c) _
                  (write_batch-Ahead c c v.total_high v.within r.opened r.accepting r.room f
                    (omega arith))
                  (λ d a. a))
              (λ fresh.
                Returns-bind (Ahead c) (λ (d, _). Ahead c d) (write_first c) _
                  (write_first-Ahead c v r fresh) (λ d a. a))))
