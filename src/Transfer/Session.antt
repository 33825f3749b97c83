-- ===== src/Transfer/Session.antt =====
-- A whole transfer of tcp/tcp_client.cc and tcp/tcp_peer.cc under a kernel that takes what is written:
-- the client's timer, the server's reads, and the client's read of the answer.
use tcp_congestion_mininet.Common.{
  ℕ, ◌-◌, ◌≤◌, ◌<◌, ◌≡◌, refl, ap, sym, subst, ◌∙◌, arith, Bool, true, lt-ltb, ◌&&◌, ◌||◌, Option,
  List, [], ◌∷◌, if◌then◌else◌, Bool-cases, inl, inr,
}
use tcp_congestion_mininet.Common.Lists.{length}
use tcp_congestion_mininet.Common.Int.{ℤ, is_positive}
use tcp_congestion_mininet.Socket.{
  Outcome, ok, aborted, ◌>>=◌, Returns, Returns-bind, Returns-both, Yields, Wire, fails,
}
use tcp_congestion_mininet.Client
use tcp_congestion_mininet.Peer
use tcp_congestion_mininet.Client.{TcpClient, TcpInfo}
use tcp_congestion_mininet.Client.Send.{next_write_time, run_timer}
use tcp_congestion_mininet.Client.Progress.{IsSending, message}
use tcp_congestion_mininet.Client.Finish.{IsSent, run_timer-Returns}
use tcp_congestion_mininet.Client.Ahead.{IsReady}
use tcp_congestion_mininet.Client.Kept.{notifi_read-core, told, Untold, next_write_time-Untold}
use tcp_congestion_mininet.Client.Quiet.{decreases, same}
use tcp_congestion_mininet.Client.Deactive.{IsCounted, Quiet-IsCounted, notifi_read-decreases}
use tcp_congestion_mininet.Peer.{TcpPeer, done_message}
use tcp_congestion_mininet.Peer.Counting.{done_count}
use tcp_congestion_mininet.Peer.First.{IsNew}
use tcp_congestion_mininet.Peer.Reading.{After}
use tcp_congestion_mininet.Peer.Speaking.{voice, IsHeard, notifi_read-IsHeard}
use tcp_congestion_mininet.Transfer.{joined, transfer_lem}

-- The timer's calls, one call of the peer's NotifiRead, and one of the client's.
unfoldable pub session :
    List ℕ
    → (now first second : ℕ) → List (List ℕ)
    → ℕ
    → Bool
    → Option TcpInfo
    → TcpClient
    → TcpPeer
    → Outcome (TcpClient × TcpPeer)
session nexts now first second lines reads errno logged c p = run_timer nexts c >>= λ d.
    Peer.notifi_read now first second lines errno (fails true) p >>= λ q.
    ok (Client.notifi_read reads errno (fails true) logged logged d, q)

pub run_timer-Untold : (nexts : List ℕ) (c : TcpClient) → Untold c (run_timer nexts c)
unfolding run_timer
run_timer-Untold [] c = refl
run_timer-Untold (next ∷ nexts) c =
    go (next_write_time next c) (next_write_time-Untold next c) (λ d. run_timer-Untold nexts d)
  where
    go :
        (r : Outcome (TcpClient × ℕ))
        → Untold c (r >>= λ (d, _). ok d)
        → ((d : TcpClient) → Untold d (run_timer nexts d))
        → Untold c (r >>= λ (d, _). run_timer nexts d)
    go aborted u ih = tt
    go (ok (d, delay)) u ih = after (run_timer nexts d) (ih d)
      where
        after : (r : Outcome TcpClient) → Untold d r → Untold c r
        after aborted v = tt
        after (ok e) v = v ∙ u

-- What the session leaves.
pub record IsDelivered (c d : TcpClient) (q : TcpPeer) : Type 0 where
  pub sent : d.wire.stream ≡ message c
  pub counted : q.recv_byte ≡ c.total_byte
  pub named : q.client_id ≡ c.client_id
  pub answered : q.wire.stream ≡ done_message
  pub told : done_count q.effects ≡ 1
  pub decreased : decreases d.effects ≡ (if c.has_counter then 1 else 0)

Untold-Yields :
    (c : TcpClient) (r : Outcome TcpClient)
    → Untold c r
    → Yields (Unit {0}) (λ d. told d ≡ told c) r
Untold-Yields c aborted u = u
Untold-Yields c (ok d) u = u

After-Yields :
    (id total recv : ℕ) (r : Outcome TcpPeer)
    → After id total recv r
    → Yields (Unit {0}) (λ q. After id total recv (ok q)) r
After-Yields id total recv aborted a = a
After-Yields id total recv (ok q) a = a

-- The client that has sent everything is past its first packet.
sent_first : (c d : TcpClient) → IsSent c d → d.first_sent ≡ true
sent_first c d (v, all, total, id, m) = elim (Bool-cases d.first_sent) [
  | inl f ↦ f
  | inr fresh ↦ absurd (omega (arith, (v.before fresh).0, v.total_low))
]

-- The client's read of the answer.
decreases-answer :
    (reads : ℕ) (errno : Bool) (logged : Option TcpInfo) (c d : TcpClient)
    → IsCounted c
    → told d ≡ told c
    → 0 < reads
    → decreases (Client.notifi_read reads errno (fails true) logged logged d).effects
      ≡ (if c.has_counter then 1 else 0)
decreases-answer reads errno logged c d v u more =
    let w : IsCounted d =
      Quiet-IsCounted c d (same c d (ap (λ x. x.2) u) (ap (λ x. x.0) u) (ap (λ x. x.1) u)) v in
    (notifi_read-decreases reads errno (fails true) logged logged d w).1
    ∙ ap (λ b. if (b || d.deactive_sent) && d.has_counter then 1 else 0) (lt-ltb 0 reads more)
    ∙ ap (λ b. if b then 1 else 0) (ap (λ x. x.1) u)

-- The peer's part.
answer :
    (c d : TcpClient) (fd : ℤ) (q : TcpPeer)
    → IsSent c d
    → After d.client_id d.total_byte d.send_byte (ok q)
    → IsHeard fd (voice q)
    → (q.recv_byte ≡ c.total_byte)
      × (q.client_id ≡ c.client_id)
      × (q.wire.stream ≡ done_message)
      × (done_count q.effects ≡ 1)
answer c d fd q (v, all, total, id, m) (f, a, b, n, s) heard =
    let done : q.send_read_done ≡ true = ground (arith, s.done, b, n, all) in
    (
      n ∙ all ∙ total,
      a ∙ id,
      subst (λ t. IsHeard fd (q.sockfd, t, q.wire)) done heard,
      s.told ∙ ap (λ t. if t then 1 else 0) done,
    )

pub session-IsDelivered :
    (nexts : List ℕ) (now first second : ℕ) (line : List ℕ) (lines : List (List ℕ)) (reads : ℕ)
    (errno : Bool) (logged : Option TcpInfo) (c : TcpClient) (p : TcpPeer)
    → IsSending c
    → IsReady c
    → IsCounted c
    → c.client_id < 0x100000000
    → c.total_byte - c.send_byte ≤ length nexts
    → IsNew p
    → is_positive p.sockfd ≡ true
    → IsHeard p.sockfd (voice p)
    → 8 ≤ length line
    → joined (line ∷ lines) ≡ message c
    → 0 < reads
    → Returns
        (λ (d, q). IsDelivered c d q)
        (session nexts now first second (line ∷ lines) reads errno logged c p)
unfolding session
session-IsDelivered nexts now first second line lines reads errno logged c p v r w hid enough new
      open_ heard long e more =
    Returns-bind (λ d. IsSent c d × (told d ≡ told c)) (λ (d, q). IsDelivered c d q)
      (run_timer nexts c) _
      (Returns-both (Unit {0}) (IsSent c) (λ d. told d ≡ told c) (run_timer nexts c)
        (run_timer-Returns nexts c v r enough)
        (Untold-Yields c (run_timer nexts c) (run_timer-Untold nexts c)))
      (λ d (s, u).
        let (sending, all, total, id, m) = s in
        let reading = Peer.notifi_read now first second (line ∷ lines) errno (fails true) p in
        Returns-bind
          (λ q. IsHeard p.sockfd (voice q) × After d.client_id d.total_byte d.send_byte (ok q))
          (λ (d, q). IsDelivered c d q) reading _
          (Returns-both (Unit {0}) (λ q. IsHeard p.sockfd (voice q))
            (λ q. After d.client_id d.total_byte d.send_byte (ok q)) reading
            (notifi_read-IsHeard now first second (line ∷ lines) errno p open_ heard)
            (After-Yields d.client_id d.total_byte d.send_byte reading (
              transfer_lem d now first second line lines errno (fails true) p sending
                (sent_first c d s) (omega (arith, id)) new long (e ∙ sym m))))
          (λ q (h, a).
            let (counted, named, answered, told_once) = answer c d p.sockfd q s a h in
            record {
              sent =
                  ap (λ ((i, t, n, f, w) : ℕ × ℕ × ℕ × Bool × Wire). w.stream)
                    (notifi_read-core reads errno (fails true) logged logged d)
                  ∙ m;
              counted = counted;
              named = named;
              answered = answered;
              told = told_once;
              decreased = decreases-answer reads errno logged c d w u more;
            }))
