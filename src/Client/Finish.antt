-- ===== src/Client/Finish.antt =====
-- The timer of tcp/tcp_client.cc gets to the end of the message under a kernel that takes its writes.
use tcp_congestion_mininet.Common.{
  ℕ, ◌-◌, ◌≤◌, ◌≡◌, refl, ap, ap₂, ◌∙◌, inl, inr, arith, true, not, List, [], ◌∷◌, ◌++◌, if-elim,
  Bool-cases,
}
use native.Mathlib.Decide.{dec_le}
use tcp_congestion_mininet.Common.Lists.{length, replicate}
use tcp_congestion_mininet.Common.Int.{pos, is_positive, is_zero}
use tcp_congestion_mininet.Socket.{Outcome, ok, Returns, Returns-bind, Returns-map}
use tcp_congestion_mininet.Client.{TcpClient}
use tcp_congestion_mininet.Client.Send.{get_batch_size, header_message, next_write_time, run_timer}
use tcp_congestion_mininet.Client.Live.{both}
use tcp_congestion_mininet.Client.Progress.{
  IsSending, Continues, next_write_time-Continues, get_batch_size_lem, message,
}
use tcp_congestion_mininet.Client.Ahead.{IsReady, Ahead, next_write_time-Ahead}

-- The whole message is on the wire.
abbrev pub IsSent : TcpClient → TcpClient → Type 0
IsSent c d =
    IsSending d
    × (d.send_byte ≡ d.total_byte)
    × (d.total_byte ≡ c.total_byte)
    × (d.client_id ≡ c.client_id)
    × (d.wire.stream ≡ message c)

pub sent_message :
    (c : TcpClient) → IsSending c → c.send_byte ≡ c.total_byte → c.wire.stream ≡ message c
sent_message c v e = elim (Bool-cases c.first_sent) [
  | inl f ↦
      (v.after f).1
      ∙ ap
          (λ n.
            header_message c.client_id c.total_byte ++ replicate (n - 1400) (let z : ℕ = 0 in z))
          e
  | inr f ↦ absurd (omega (arith, (v.before f).0, v.total_low))
]

-- A timer that has nothing to send returns, and changes nothing.
next_write_time-done :
    (next : ℕ) (c : TcpClient)
    → IsSending c
    → c.send_byte ≡ c.total_byte
    → next_write_time next c ≡ ok (c, 0)
unfolding next_write_time
next_write_time-done next c v e =
    let none_left : is_zero (get_batch_size c) ≡ true =
      ap is_zero (get_batch_size_lem c v.total_high v.within ∙ ap pos {y = 0} (omega arith)) in
    if-elim (λ (r : Outcome (TcpClient × ℕ)). r ≡ ok (c, 0)) (not (is_positive c.sockfd))
      (λ _. refl) (λ _. rw none_left refl)

run_timer-done :
    (nexts : List ℕ) (c : TcpClient)
    → IsSending c
    → c.send_byte ≡ c.total_byte
    → run_timer nexts c ≡ ok c
unfolding run_timer
run_timer-done [] c v e = refl
run_timer-done (next ∷ nexts) c v e =
    rw (next_write_time-done next c v e) (run_timer-done nexts c v e)

pub run_timer-Returns :
    (nexts : List ℕ) (c : TcpClient)
    → IsSending c
    → IsReady c
    → c.total_byte - c.send_byte ≤ length nexts
    → Returns (IsSent c) (run_timer nexts c)
unfolding run_timer
run_timer-Returns [] c v r h =
    let e : c.send_byte ≡ c.total_byte = omega (arith, v.within) in
    (v, e, refl, refl, sent_message c v e)
run_timer-Returns (next ∷ nexts) c v r h = elim (dec_le c.total_byte c.send_byte) [
  | yes done ↦
      let e : c.send_byte ≡ c.total_byte = omega (arith, v.within) in
      rw (next_write_time-done next c v e)
        (rw (run_timer-done nexts c v e) (v, e, refl, refl, sent_message c v e))
  | no more ↦
      Returns-bind (λ (d, _). Continues c (ok d) × Ahead c d) (IsSent c) (next_write_time next c) _
        (both (Ahead c) c (next_write_time next c) (next_write_time-Continues next c v)
          (next_write_time-Ahead next c v r (omega arith)))
        (λ (d, _) ((w, id, total, le), a).
          Returns-map (IsSent d) (IsSent c) (run_timer nexts d)
            (λ x (y, all, t, i, m). (
              y,
              all,
              t ∙ total,
              i ∙ id,
              m
                  ∙ ap₂ (λ k n. header_message k n ++ replicate (n - 1400) (let z : ℕ = 0 in z)) id
                      total,
            ))
            (run_timer-Returns nexts d w a.ready (omega (arith, a.more, total))))
]
