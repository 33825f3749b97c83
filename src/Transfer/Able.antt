-- ===== src/Transfer/Able.antt =====
-- What a connection needs to come to its end, and its way there from the connection of its client on.
use tcp_congestion_mininet.Common.{
  ℕ, ◌-◌, ◌≤◌, ◌<◌, ◌≡◌, ap, sym, subst, ◌∙◌, arith, true, none, List, ◌∷◌, ◌++◌, if◌then◌else◌,
}
use tcp_congestion_mininet.Common.Lists.{length, replicate, length-replicate}
use tcp_congestion_mininet.Common.Int.{ℤ, is_positive}
use tcp_congestion_mininet.Socket.{Returns, IsAccepting}
use tcp_congestion_mininet.Client.{TcpClient, start_thread, time_event, file_event, syn_connect}
use tcp_congestion_mininet.Client.Live.{TakesFirst}
use tcp_congestion_mininet.Client.Send.{header_message}
use tcp_congestion_mininet.Client.Progress.{message}
use tcp_congestion_mininet.Client.Ahead.{IsReady}
use tcp_congestion_mininet.Client.Quiet.{
  decreases, Quiet, Quiet-trans, syn_connect-Quiet, notifi_connect-Quiet,
}
use tcp_congestion_mininet.Client.Kept.{core, syn_connect-core, notifi_connect-core, core-IsSending}
use tcp_congestion_mininet.Peer.{TcpPeer}
use tcp_congestion_mininet.Peer.Speaking.{voice, IsHeard}
use tcp_congestion_mininet.Transfer.{joined}
use tcp_congestion_mininet.Transfer.Session.{session, IsDelivered, session-IsDelivered}
use tcp_congestion_mininet.Transfer.System.{Connection, HasHeader, Made, Reach}
use tcp_congestion_mininet.Transfer.Safety.{IsStart}
use tcp_congestion_mininet.Transfer.Up.{up, up-Timed, up-Reach}
use tcp_congestion_mininet.Transfer.Course.{ok-value, Reach-onward, session-Reach, ended}

-- A connection with nothing sent whose two ends can get through to each other: the kernel takes what both
-- write, and the message reaches the peer in the pieces `line` and `lines`.
pub record IsClear (id total : ℕ) (s : Connection) : Type 0 where
  pub line : List ℕ
  pub lines : List (List ℕ)
  pub begins : IsStart id total s
  pub ready : IsReady s.client
  pub counter : s.client.has_counter ≡ true
  pub opened : is_positive s.peer.sockfd ≡ true
  pub heard : IsHeard s.peer.sockfd (voice s.peer)
  pub long : 8 ≤ length line
  pub cut : joined (line ∷ lines) ≡ message s.client

-- The client, once its connection is up, is still to send its whole message.
up-core : (c : TcpClient) → core (up c) ≡ core c
up-core c = notifi_connect-core true none (syn_connect true c) ∙ syn_connect-core true c

up-Quiet : (c : TcpClient) → Quiet c (up c)
up-Quiet c =
    Quiet-trans c (syn_connect true c) (up c) (syn_connect-Quiet true c)
      (notifi_connect-Quiet true none (syn_connect true c))

same-message : (c d : TcpClient) → core d ≡ core c → message d ≡ message c
same-message c d e =
    ap (λ x. header_message x.0 x.1 ++ replicate (x.1 - 1400) (let z : ℕ = 0 in z)) e

same-IsReady : (c d : TcpClient) → core d ≡ core c → d.sockfd ≡ c.sockfd → IsReady c → IsReady d
same-IsReady c d e socket v = record {
  opened = ap is_positive socket ∙ v.opened;
  accepting = subst (λ x. IsAccepting x.4.answers) (sym e) v.accepting;
  room = subst (λ x. x.1 - x.2 ≤ length x.4.answers) (sym e) v.room;
  first = subst (λ x. TakesFirst x.3 x.4.answers) (sym e) v.first;
}

up-IsClear :
    (id total : ℕ) (s : Connection)
    → IsClear id total s
    → IsClear id total (record s { client = up s.client })
up-IsClear id total s v =
    let c = s.client in
    let e = up-core c in
    let q = up-Quiet c in
    let b = v.begins in
    record {
      line = v.line;
      lines = v.lines;
      begins = record {
        sending = core-IsSending c (up c) e b.sending;
        named = ap (λ x. x.0) e ∙ b.named;
        sized = ap (λ x. x.1) e ∙ b.sized;
        told = q.sent ∙ b.told;
        calls = q.calls ∙ b.calls;
        new = b.new;
        unanswered = b.unanswered;
        undelivered = b.undelivered;
        unheard = b.unheard;
      };
      ready = same-IsReady c (up c) e (up-Timed c v.ready.opened).socket v.ready;
      counter = q.counter ∙ v.counter;
      opened = v.opened;
      heard = v.heard;
      long = v.long;
      cut = v.cut ∙ sym (same-message c (up c) e);
    }

-- With a timer, it can come to its end, with the call of Decrease.
IsClear-Reach :
    (id total : ℕ) (s : Connection)
    → id < 0x100000000
    → IsClear id total s
    → Made (time_event 1) s.client.effects
    → (fd : ℤ) → Made (file_event fd) s.client.effects
    → (t : Connection) × Reach HasHeader s t × (decreases t.client.effects ≡ 1)
IsClear-Reach id total s hid v timed fd reading =
    let ((d, q), ran, done) = ok-value (λ (d, q). IsDelivered s.client d q) _ out in
    (
      ended s (v.line ∷ v.lines) d q,
      session-Reach nexts v.line v.lines true none s d q b.undelivered b.unheard v.long timed fd
          reading ran (v.cut ∙ sym done.sent) (omega (arith, ap length done.answered)),
      done.decreased ∙ ap (λ x. if x then 1 else 0) v.counter,
    )
  where
    b : IsStart id total s
    b = v.begins

    nexts : List ℕ
    nexts = replicate s.client.total_byte 0

    out :
        Returns
          (λ ((d, q) : TcpClient × TcpPeer). IsDelivered s.client d q)
          (session nexts 0 0 0 (v.line ∷ v.lines) 1 true none s.client s.peer)
    out =
        session-IsDelivered nexts 0 0 0 v.line v.lines 1 true none s.client s.peer b.sending v.ready
          (record { yet = λ e. b.calls; told = λ e. cc (b.told) }) (omega (arith, b.named))
          (omega (arith, length-replicate s.client.total_byte (let z : ℕ = 0 in z))) b.new v.opened
          v.heard v.long v.cut (omega arith)

-- What a connection of which AsynConnect has started the thread needs to come to its end.
pub record IsAble (id total : ℕ) (s : Connection) : Type 0 where
  pub clear : IsClear id total s
  pub started : Made start_thread s.client.effects

-- It connects, and comes to its end.
pub IsAble-Reach :
    (id total : ℕ) (s : Connection)
    → id < 0x100000000
    → IsAble id total s
    → (t : Connection) × Reach HasHeader s t × (decreases t.client.effects ≡ 1)
IsAble-Reach id total s hid v =
    let opened = v.clear.ready.opened in
    let (t, r, once) =
      IsClear-Reach id total (record s { client = up s.client }) hid (up-IsClear id total s v.clear)
        (up-Timed s.client opened).timer s.client.sockfd (up-Timed s.client opened).reading in
    (t, Reach-onward (up-Reach s opened v.started) r, once)
