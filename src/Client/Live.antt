-- ===== src/Client/Live.antt =====
-- The timer of tcp/tcp_client.cc returns, and gets to the end of the message, where the kernel lets it.
use tcp_congestion_mininet.Common.{
  ℕ, ◌+◌, ◌≤◌, ◌≡◌, refl, ap, sym, subst, arith, Bool, true, false, not, List, [], ◌∷◌, ◌==◌,
  if-elim,
}
use tcp_congestion_mininet.Common.Lists.{length}
use tcp_congestion_mininet.Common.Int.{is_positive, is_zero}
use tcp_congestion_mininet.Socket.{
  IsUnbroken, IsAccepting, Outcome, ok, aborted, ◌>>=◌, check, Returns, Returns-bind, Wrote,
  accepts, would_block, breaks,
}
use tcp_congestion_mininet.Client.{TcpClient, max_line}
use tcp_congestion_mininet.Client.Send.{
  answer_write, write_message, write_packet_in_batch, get_batch_size, increase_write_bytes,
  header_message, write_batch, write_first, next_write_time,
}
use tcp_congestion_mininet.Client.Write.{write_message-open}
use tcp_congestion_mininet.Client.Answers.{write_packet_loop-Unbroken}
use tcp_congestion_mininet.Client.Header.{length-header_message}
use tcp_congestion_mininet.Client.Progress.{IsSending, Continues, next_write_time-Continues}

-- The next write is not the first one, or the kernel takes all of it.
abbrev pub TakesFirst : Bool → List Wrote → Type 0
TakesFirst true l = Unit {0}
TakesFirst false [] = ⊥
TakesFirst false (accepts k ∷ l) = 1399 ≤ k
TakesFirst false (would_block ∷ l) = ⊥
TakesFirst false (breaks ∷ l) = ⊥

-- What the first write leaves of the answers.
pub record Headed (c : TcpClient) (r : TcpClient × ℕ) : Type 0 where
  pub whole : r.1 ≡ 1400
  pub same : r.0 ≡ record c { wire = r.0.wire }
  pub unbroken : IsUnbroken c.wire.answers → IsUnbroken r.0.wire.answers
  pub accepting : IsAccepting c.wire.answers → IsAccepting r.0.wire.answers
  pub used : length c.wire.answers ≤ length r.0.wire.answers + 1

answer_write-Headed :
    (msg : List ℕ) (c : TcpClient) (l : List Wrote)
    → length msg ≡ 1400
    → l ≡ c.wire.answers
    → TakesFirst false l
    → Returns (Headed c) (answer_write msg c l)
unfolding answer_write
answer_write-Headed msg c [] size e t = absurd t
answer_write-Headed msg c (accepts k ∷ l) size e t = record {
  whole = omega (arith, size);
  same = refl;
  unbroken = λ u. subst IsUnbroken (sym e) u;
  accepting = λ a. subst IsAccepting (sym e) a;
  used = omega (arith, ap length e);
}
answer_write-Headed msg c (would_block ∷ l) size e t = absurd t
answer_write-Headed msg c (breaks ∷ l) size e t = absurd t

write_header-Headed :
    (c : TcpClient)
    → is_positive c.sockfd ≡ true
    → TakesFirst false c.wire.answers
    → Returns (Headed c) (write_message (header_message c.client_id c.total_byte) c)
write_header-Headed c open_ t =
    rw (write_message-open (header_message c.client_id c.total_byte) c open_) (
      answer_write-Headed (header_message c.client_id c.total_byte) c c.wire.answers
        (length-header_message c.client_id c.total_byte) refl t)

abbrev Unbroken : TcpClient → Type 0
Unbroken d = IsUnbroken d.wire.answers

write_batch-Unbroken : (c : TcpClient) → Unbroken c → Returns Unbroken (write_batch c)
unfolding write_batch write_packet_in_batch increase_write_bytes
write_batch-Unbroken c u =
    Returns-bind (λ (d, _). Unbroken d) Unbroken (write_packet_in_batch (get_batch_size c) c) _
      (write_packet_loop-Unbroken _ _ 0 c u) (λ (d, t) v. v)

-- The client after the header, before its first batch.
unfoldable pub after_header : TcpClient → ℕ → TcpClient
unfolding increase_write_bytes
after_header d ret = record (increase_write_bytes ret d) { first_sent = true }

pub write_first-bind :
    (P : TcpClient → Type 0) (c : TcpClient)
    → is_positive c.sockfd ≡ true
    → TakesFirst false c.wire.answers
    → ((d : TcpClient) → Headed c (d, 1400) → Returns P (write_batch (after_header d 1400)))
    → Returns P (write_first c)
unfolding write_first after_header increase_write_bytes
write_first-bind P c open_ t k =
    Returns-bind (Headed c) P (write_message (header_message c.client_id c.total_byte) c) _
      (write_header-Headed c open_ t)
      (λ (d, ret) h.
        subst
          (λ n.
            Headed c (d, n)
            → Returns P (
                check (n == max_line)
                  (write_batch (record (increase_write_bytes n d) { first_sent = true }))))
          (sym h.whole) (λ whole. k d whole) h)

-- With no error among the answers, and the first packet taken whole, a call of the timer returns.
pub next_write_time-Unbroken :
    (next : ℕ) (c : TcpClient)
    → Unbroken c
    → TakesFirst c.first_sent c.wire.answers
    → Returns (λ (d, _). Unbroken d) (next_write_time next c)
unfolding next_write_time
next_write_time-Unbroken next c u t =
    if-elim (Returns (λ ((d, _) : TcpClient × ℕ). Unbroken d)) (not (is_positive c.sockfd)) (λ _. u)
      (λ closed.
        if-elim (Returns (λ ((d, _) : TcpClient × ℕ). Unbroken d)) (is_zero (get_batch_size c))
          (λ _. u)
          (λ _.
            if-elim (Returns (λ ((d, _) : TcpClient × ℕ). Unbroken d)) c.first_sent
              (λ _.
                Returns-bind Unbroken (λ (d, _). Unbroken d) (write_batch c) _
                  (write_batch-Unbroken c u) (λ d v. v))
              (λ fresh.
                Returns-bind Unbroken (λ (d, _). Unbroken d) (write_first c) _
                  (write_first-bind Unbroken c (ground arith)
                    (subst (λ b. TakesFirst b c.wire.answers) fresh t)
                    (λ d h.
                      unfold after_header increase_write_bytes in
                      write_batch-Unbroken _ (h.unbroken u)))
                  (λ d v. v))))

pub both :
    (P : TcpClient → Type 0) (c : TcpClient) (r : Outcome (TcpClient × ℕ))
    → Continues c (r >>= λ (d, _). ok d)
    → Returns (λ (d, _). P d) r
    → Returns (λ (d, _). Continues c (ok d) × P d) r
both P c (ok (d, t)) k p = (k, p)
both P c aborted k p = p

-- A call of the timer on a client whose counters agree with the wire, where no answer of the kernel
-- is an error and the first packet, if it is still to come, is taken whole: the call returns, the
-- counters agree afterwards, for the same message, and no byte is taken back.
pub next_write_time-Returns :
    (next : ℕ) (c : TcpClient)
    → IsSending c
    → IsUnbroken c.wire.answers
    → TakesFirst c.first_sent c.wire.answers
    → Returns (λ (d, _). Continues c (ok d) × IsUnbroken d.wire.answers) (next_write_time next c)
next_write_time-Returns next c v u t =
    both (λ d. IsUnbroken d.wire.answers) c (next_write_time next c)
      (next_write_time-Continues next c v) (next_write_time-Unbroken next c u t)
