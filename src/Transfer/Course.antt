-- ===== src/Transfer/Course.antt =====
-- A connection that goes its whole course, by the steps of Transfer/System.
use tcp_congestion_mininet.Common.{
  ℕ, ◌+◌, ◌≤◌, ◌≡◌, refl, ap, sym, subst, ◌∙◌, arith, Bool, true, Option, List, [], ◌∷◌, ◌++◌,
}
use tcp_congestion_mininet.Common.Lists.{length, drop}
use tcp_congestion_mininet.Common.Int.{ℤ}
use tcp_congestion_mininet.Socket.{Outcome, ok, aborted, ◌>>=◌, Returns, Wire, fails}
use tcp_congestion_mininet.Client
use tcp_congestion_mininet.Client.{
  TcpClient, TcpInfo, start_thread, time_event, file_event, syn_connect,
}
use tcp_congestion_mininet.Client.Send.{next_write_time, run_timer}
use tcp_congestion_mininet.Client.Kept.{told, Untold, notifi_read-core, next_write_time-Untold}
use tcp_congestion_mininet.Peer
use tcp_congestion_mininet.Peer.{TcpPeer, done_message}
use tcp_congestion_mininet.Peer.Reading.{total_length}
use tcp_congestion_mininet.Transfer.{joined}
use tcp_congestion_mininet.Transfer.Session.{run_timer-Untold, session}
use tcp_congestion_mininet.Transfer.System.{
  Connection, HasHeader, Made, timer, deliver, reply, Reach, here, later,
}
use mathlib.Core.List.{append-nil}

pub ok-value :
    {A : Type 0} (P : A → Type 0) (r : Outcome A) → Returns P r → (a : A) × (r ≡ ok a) × P a
ok-value P (ok a) p = (a, refl, p)
ok-value P aborted p = absurd p

bind-ok :
    {A B : Type 0} (r : Outcome A) (f : A → Outcome B) (b : B)
    → (r >>= f) ≡ ok b
    → (a : A) × (r ≡ ok a) × (f a ≡ ok b)
bind-ok (ok a) f b e = (a, refl, e)
bind-ok aborted f b e = absurd (cc e)

pub Reach-onward :
    {s t u : Connection} → Reach HasHeader s t → Reach HasHeader t u → Reach HasHeader s u
Reach-onward r here = r
Reach-onward r (later q step) = later (Reach-onward r q) step

-- The timer's calls, as steps.
run_timer-Reach :
    (nexts : List ℕ) (s : Connection) (d : TcpClient)
    → Made (time_event 1) s.client.effects
    → run_timer nexts s.client ≡ ok d
    → Reach HasHeader s (record s { client = d })
unfolding run_timer
run_timer-Reach [] s d made e =
    let same : s.client ≡ d = cc e in
    subst (λ c. Reach HasHeader s (record s { client = c })) same here
run_timer-Reach (next ∷ nexts) s d made e =
    let ((c, delay), ran, rest) = bind-ok (next_write_time next s.client) _ d e in
    let same : told c ≡ told s.client =
      subst (λ (r : Outcome (TcpClient × ℕ)). Untold s.client (r >>= λ (d, _). ok d)) ran
        (next_write_time-Untold next s.client) in
    let still : Made (time_event 1) c.effects =
      subst (Made (time_event 1)) (sym (ap (λ x. x.2) same)) made in
    Reach-onward (later here (timer next delay made ran))
      (run_timer-Reach nexts (record s { client = c }) d still rest)

-- The connection after a session.
abbrev pub ended : Connection → List (List ℕ) → TcpClient → TcpPeer → Connection
ended s lines d q = record {
  client = d;
  peer = q;
  delivered = s.delivered + total_length lines;
  heard = s.heard + 1;
}

-- The peer's read and the client's, as steps.
reads-Reach :
    (line : List ℕ) (lines : List (List ℕ)) (errno : Bool) (logged : Option TcpInfo)
    (s : Connection) (q : TcpPeer)
    → s.delivered ≡ 0
    → s.heard ≡ 0
    → 8 ≤ length line
    → (fd : ℤ) → Made (file_event fd) s.client.effects
    → joined (line ∷ lines) ≡ s.client.wire.stream
    → Peer.notifi_read 0 0 0 (line ∷ lines) errno (fails true) s.peer ≡ ok q
    → 1 ≤ length q.wire.stream
    → Reach HasHeader s
        (ended s (line ∷ lines) (Client.notifi_read 1 errno (fails true) logged logged s.client) q)
reads-Reach line lines errno logged s q fresh unheard long fd reading cut ran answered =
    let all : joined (line ∷ lines) ++ [] ≡ drop s.delivered s.client.wire.stream =
      append-nil (joined (line ∷ lines))
      ∙ cut
      ∙ ap (λ n. drop n s.client.wire.stream) (sym fresh) in
    later (later here (deliver 0 0 0 (line ∷ lines) [] errno (fails true) (λ e. long) all ran))
      (reply fd reading 1 1 errno (fails true) logged logged (omega arith) (omega (arith, unheard)))

pub session-Reach :
    (nexts : List ℕ) (line : List ℕ) (lines : List (List ℕ)) (errno : Bool)
    (logged : Option TcpInfo) (s : Connection) (d : TcpClient) (q : TcpPeer)
    → s.delivered ≡ 0
    → s.heard ≡ 0
    → 8 ≤ length line
    → Made (time_event 1) s.client.effects
    → (fd : ℤ) → Made (file_event fd) s.client.effects
    → session nexts 0 0 0 (line ∷ lines) 1 errno logged s.client s.peer ≡ ok (d, q)
    → joined (line ∷ lines) ≡ d.wire.stream
    → 1 ≤ length q.wire.stream
    → Reach HasHeader s (ended s (line ∷ lines) d q)
unfolding session
session-Reach nexts line lines errno logged s d q fresh unheard long made fd reading ran cut
      answered =
    let (c, timed, rest) = bind-ok (run_timer nexts s.client) _ (d, q) ran in
    let (p, read, last) =
      bind-ok (Peer.notifi_read 0 0 0 (line ∷ lines) errno (fails true) s.peer) _ (d, q) rest in
    go c p timed read (cc last)
  where
    go :
        (c : TcpClient) (p : TcpPeer)
        → run_timer nexts s.client ≡ ok c
        → Peer.notifi_read 0 0 0 (line ∷ lines) errno (fails true) s.peer ≡ ok p
        → ◌≡◌ {A = TcpClient × TcpPeer}
            (Client.notifi_read 1 errno (fails true) logged logged c, p)
            (d, q)
        → Reach HasHeader s (ended s (line ∷ lines) d q)
    go c p timed read e =
        let stream : d.wire.stream ≡ c.wire.stream =
          ap (λ ((x, y) : TcpClient × TcpPeer). x.wire.stream) (sym e)
          ∙ ap (λ ((i, t, n, f, w) : ℕ × ℕ × ℕ × Bool × Wire). w.stream)
              (notifi_read-core 1 errno (fails true) logged logged c) in
        let voiced : 1 ≤ length p.wire.stream =
          omega (arith, answered, ap (λ ((x, y) : TcpClient × TcpPeer). length y.wire.stream) e) in
        let same : told c ≡ told s.client =
          subst (Untold s.client) timed (run_timer-Untold nexts s.client) in
        let still : Made (file_event fd) c.effects =
          subst (Made (file_event fd)) (sym (ap (λ x. x.2) same)) reading in
        Reach-onward (run_timer-Reach nexts s c made timed) (
          subst
            (λ ((x, y) : TcpClient × TcpPeer).
              Reach HasHeader (record s { client = c }) (ended s (line ∷ lines) x y))
            e
            (reads-Reach line lines errno logged (record s { client = c }) p fresh unheard long fd
              still (cut ∙ stream) read voiced))
