-- ===== src/Transfer/System.antt =====
-- A client of tcp/tcp_client.cc and the server's peer of tcp/tcp_peer.cc in any order of their events.
-- The event loops and the network between them are the steps of a relation: which event comes next, how
-- many bytes arrive, how the reads split them, and what the kernel answers is left open. Either side
-- may close at any read that returns nothing. SynConnect runs in the thread that AsynConnect started,
-- NotifiConnect where SynConnect posted it, and the timer fires and the client reads where NotifiConnect
-- has made the timer and asked for the read event.
use tcp_congestion_mininet.Common.{ℕ, ◌+◌, ◌≤◌, ◌≡◌, Bool, true, Option, List, [], ◌∷◌, ◌++◌}
use tcp_congestion_mininet.Common.Lists.{length, drop}
use tcp_congestion_mininet.Common.Int.{ℤ}
use tcp_congestion_mininet.Socket.{ok, Wrote, Stop}
use tcp_congestion_mininet.Client
use tcp_congestion_mininet.Peer
use tcp_congestion_mininet.Client.{
  TcpClient, TcpInfo, Effect, start_thread, post, notifi_connect_task, time_event, file_event,
  log_tcp_info_event, syn_connect, notifi_connect,
}
use tcp_congestion_mininet.Client.Send.{next_write_time}
use tcp_congestion_mininet.Peer.{TcpPeer, new_peer, set_trace_recv_fun}
use tcp_congestion_mininet.Peer.Reading.{total_length}
use tcp_congestion_mininet.Echo.{Host, start_client}
use tcp_congestion_mininet.Transfer.{joined}

-- `delivered` bytes of the client's stream were read by the peer, and `heard` bytes of the peer's by
-- the client.
pub record Connection : Type 0 where
  pub client : TcpClient
  pub peer : TcpPeer
  pub delivered : ℕ
  pub heard : ℕ

-- The first read of a connection has the header's eight bytes.
abbrev pub HasHeader : List (List ℕ) → Type 0
HasHeader [] = Unit {0}
HasHeader (line ∷ lines) = 8 ≤ length line

-- A call that was made.
pub data Made (e : Effect) : List Effect → Type 0 where
  newest : {es : List Effect} → Made e (e ∷ es)
  older : {f : Effect} {es : List Effect} → Made e es → Made e (f ∷ es)

-- `First` is what a first read brings: a condition on the network that every theorem names.
pub data Step (First : List (List ℕ) → Type 0) (s : Connection) : Connection → Type 0 where
  timer :
      (next delay : ℕ) {d : TcpClient}
      → Made (time_event 1) s.client.effects
      → next_write_time next s.client ≡ ok (d, delay)
      → Step First s (record s { client = d })
  deliver :
      (now first second : ℕ) (lines : List (List ℕ)) (rest : List ℕ) (errno : Bool) (stop : Stop)
      {q : TcpPeer}
      → (s.delivered ≡ 0 → First lines)
      → joined lines ++ rest ≡ drop s.delivered s.client.wire.stream
      → Peer.notifi_read now first second lines errno stop s.peer ≡ ok q
      → Step First s (record s { peer = q; delivered = s.delivered + total_length lines })
  reply :
      (fd : ℤ)
      → Made (file_event fd) s.client.effects
      → (reads bytes : ℕ) (errno : Bool) (stop : Stop) (logged closed : Option TcpInfo)
      → reads ≤ bytes
      → s.heard + bytes ≤ length s.peer.wire.stream
      → Step First s (record s {
        client = Client.notifi_read reads errno stop logged closed s.client;
        heard = s.heard + bytes;
      })
  log :
      (answer : Option TcpInfo)
      → Step First s (record s { client = log_tcp_info_event answer s.client })
  connect :
      (connects : Bool)
      → Made start_thread s.client.effects
      → Step First s (record s { client = syn_connect connects s.client })
  connected :
      (registers : Bool) (answer : Option TcpInfo)
      → Made (post notifi_connect_task 0) s.client.effects
      → Step First s (record s { client = notifi_connect registers answer s.client })
  client_kernel :
      (answers : List Wrote)
      → Step First s (record s {
        client = record (s.client) { wire = record (s.client.wire) { answers = answers } };
      })
  peer_kernel :
      (answers : List Wrote)
      → Step First s (record s {
        peer = record (s.peer) { wire = record (s.peer.wire) { answers = answers } };
      })

-- A client of echo_client.cc, and a peer that the server of echo_server.cc has just accepted.
unfoldable pub start : List ℕ → ℕ → Host → ℤ → List Wrote → Connection
start cc id h fd answers = record {
  client = start_client cc id h;
  peer = set_trace_recv_fun (new_peer fd true answers);
  delivered = 0;
  heard = 0;
}

pub data Reach (First : List (List ℕ) → Type 0) (s : Connection) : Connection → Type 0 where
  here : Reach First s s
  later : {t u : Connection} → Reach First s t → Step First t u → Reach First s u
