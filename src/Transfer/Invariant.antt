-- ===== src/Transfer/Invariant.antt =====
-- What holds of a client and its peer in every order of their events.
use tcp_congestion_mininet.Common.{ℕ, ◌+◌, ◌≤◌, ◌<◌, ◌≡◌, sym, subst, arith, Bool, List, ◌++◌}
use tcp_congestion_mininet.Common.Lists.{length, drop}
use tcp_congestion_mininet.Socket.{ok, Yields, Stop}
use tcp_congestion_mininet.Peer
use tcp_congestion_mininet.Peer.{TcpPeer, new_peer, set_trace_recv_fun}
use tcp_congestion_mininet.Peer.Reading.{total_length}
use tcp_congestion_mininet.Peer.Speaking.{notifi_read-grows}
use tcp_congestion_mininet.Transfer.Sender.{
  IsClient, timer-IsClient, reply-IsClient, log-IsClient, connect-IsClient, connected-IsClient,
  kernel-IsClient,
}
use tcp_congestion_mininet.Transfer.Receiver.{IsPeer, deliver-IsPeer, kernel-IsPeer}
use tcp_congestion_mininet.Transfer.{joined}
use tcp_congestion_mininet.Transfer.System.{
  Connection, HasHeader, Step, timer, deliver, reply, log, connect, connected, client_kernel,
  peer_kernel, Reach, here, later,
}

pub record IsConnection (id total : ℕ) (s : Connection) : Type 0 where
  pub client : IsClient id total s.delivered s.heard s.client
  pub peer : IsPeer id total s.delivered s.peer
  pub heard : s.heard ≤ length s.peer.wire.stream

heard_before :
    (n now first second : ℕ) (lines : List (List ℕ)) (errno : Bool) (stop : Stop) (p q : TcpPeer)
    → Peer.notifi_read now first second lines errno stop p ≡ ok q
    → n ≤ length p.wire.stream
    → n ≤ length q.wire.stream
heard_before n now first second lines errno stop p q e h =
    subst (Yields (Unit {0}) (λ q. n ≤ length q.wire.stream)) e
      (notifi_read-grows n now first second lines errno stop p h)

deliver-IsConnection :
    (id total : ℕ) (s : Connection) (now first second : ℕ) (lines : List (List ℕ)) (rest : List ℕ)
    (errno : Bool) (stop : Stop) (q : TcpPeer)
    → id < 0x100000000
    → (s.delivered ≡ 0 → HasHeader lines)
    → joined lines ++ rest ≡ drop s.delivered s.client.wire.stream
    → Peer.notifi_read now first second lines errno stop s.peer ≡ ok q
    → IsConnection id total s
    → IsConnection id total (record s { peer = q; delivered = s.delivered + total_length lines })
deliver-IsConnection id total s now first second lines rest errno stop q hid long e ran v =
    let c = v.client in
    let read = λ (i t : ℕ) (r : TcpPeer) (k : ℕ). IsPeer i t k r in
    let before : IsPeer s.client.client_id s.client.total_byte s.delivered s.peer =
      subst (λ i. IsPeer i s.client.total_byte s.delivered s.peer) (sym c.named)
        (subst (λ t. IsPeer id t s.delivered s.peer) (sym c.sized) v.peer) in
    let (behind, w) =
      deliver-IsPeer s.client s.delivered now first second lines rest errno stop s.peer q c.sending
        (omega (arith, c.named)) c.behind long e ran before in
    record {
      client = record {
        sending = c.sending;
        named = c.named;
        sized = c.sized;
        behind = behind;
        counted = c.counted;
        told = c.told;
      };
      peer =
          subst (λ i. IsPeer i total (s.delivered + total_length lines) q) c.named
            (subst (λ t. IsPeer s.client.client_id t (s.delivered + total_length lines) q) c.sized
              w);
      heard = heard_before s.heard now first second lines errno stop s.peer q ran v.heard;
    }

pub Step-IsConnection :
    (id total : ℕ) {s t : Connection}
    → id < 0x100000000
    → Step HasHeader s t
    → IsConnection id total s
    → IsConnection id total t
Step-IsConnection id total {s = s} hid (timer next delay {d = d} made e) v = record {
  client = timer-IsClient id total s.delivered s.heard next delay s.client d e v.client;
  peer = v.peer;
  heard = v.heard;
}
Step-IsConnection id total {s = s} hid
      (deliver now first second lines rest errno stop {q = q} long e ran) v =
    deliver-IsConnection id total s now first second lines rest errno stop q hid long e ran v
Step-IsConnection id total {s = s} hid
      (reply fd made reads bytes errno stop logged closed le within) v =
    record {
      client =
          reply-IsClient id total s.delivered s.heard reads bytes errno stop logged closed s.client
            le v.client;
      peer = v.peer;
      heard = within;
    }
Step-IsConnection id total {s = s} hid (log answer) v = record {
  client = log-IsClient id total s.delivered s.heard answer s.client v.client;
  peer = v.peer;
  heard = v.heard;
}
Step-IsConnection id total {s = s} hid (connect connects made) v = record {
  client = connect-IsClient id total s.delivered s.heard connects s.client v.client;
  peer = v.peer;
  heard = v.heard;
}
Step-IsConnection id total {s = s} hid (connected registers answer made) v = record {
  client = connected-IsClient id total s.delivered s.heard registers answer s.client v.client;
  peer = v.peer;
  heard = v.heard;
}
Step-IsConnection id total {s = s} hid (client_kernel answers) v = record {
  client = kernel-IsClient id total s.delivered s.heard answers s.client v.client;
  peer = v.peer;
  heard = v.heard;
}
Step-IsConnection id total {s = s} hid (peer_kernel answers) v = record {
  client = v.client;
  peer = kernel-IsPeer id total s.delivered answers s.peer v.peer;
  heard = v.heard;
}

pub Reach-IsConnection :
    (id total : ℕ) {s t : Connection}
    → id < 0x100000000
    → Reach HasHeader s t
    → IsConnection id total s
    → IsConnection id total t
Reach-IsConnection id total hid here v = v
Reach-IsConnection id total hid (later r step) v =
    Step-IsConnection id total hid step (Reach-IsConnection id total hid r v)
