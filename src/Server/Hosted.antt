-- ===== src/Server/Hosted.antt =====
-- A server of tcp/tcp_server.cc with the states of its peers: what a peer calls in the server while it
-- reads is done by the server. The peer's own list of effects is that of its last call.
use tcp_congestion_mininet.Common.{ℕ, ◌≡◌, Bool, some, List, [], ◌∷◌, update}
use tcp_congestion_mininet.Common.Int.{pos, negsuc}
use tcp_congestion_mininet.Socket.{ok, Wrote, Stop}
use tcp_congestion_mininet.Peer.{
  TcpPeer, Effect, trace, peer_close, close_fd, set_send_buf, set_recv_buf, on_peer_read_done,
  new_peer, set_trace_recv_fun, notifi_read,
}
use tcp_congestion_mininet.Server
use tcp_congestion_mininet.Server.{
  TcpServer, new_server, register_counter, find, accept, on_peer_read_done_msg, on_trace_data,
  delete_peer_timer, close,
}

-- `peer` gives the state of the peer with a number.
pub record Hosted : Type 0 where
  pub server : TcpServer
  pub peer : ℕ → TcpPeer

-- A call of a peer in its server, and those that do not concern the server.
unfoldable pub apply_effect : Effect → TcpServer → TcpServer
apply_effect (trace id ts len) s = on_trace_data id ts len s
apply_effect (peer_close (pos fd)) s = Server.peer_close fd s
apply_effect (peer_close (negsuc fd)) s = s
apply_effect on_peer_read_done s = on_peer_read_done_msg s
apply_effect (close_fd fd) s = s
apply_effect (set_send_buf n) s = s
apply_effect (set_recv_buf n) s = s

unfoldable pub apply_effects : List Effect → TcpServer → TcpServer
unfolding apply_effect
apply_effects [] s = s
apply_effects (e ∷ es) s = apply_effects es (apply_effect e s)

-- The peer that Accept makes for the descriptor.
unfoldable pub accepted_peer : ℕ → Bool → List Wrote → TcpPeer
accepted_peer fd registers answers = set_trace_recv_fun (new_peer (pos fd) registers answers)

-- A step may accept whether or not the event loop took the event of the listening socket, which is more
-- than the code can do.
pub data Step (h : Hosted) : Hosted → Type 0 where
  accept_fails : (e : ℕ) → Step h (record h { server = accept (negsuc e) h.server })
  accepts :
      (fd : ℕ) (registers : Bool) (answers : List Wrote)
      → Step h (record h {
        server = accept (pos fd) h.server;
        peer = update h.peer h.server.next_peer (accepted_peer fd registers answers);
      })
  reads :
      (fd number now first second : ℕ) (lines : List (List ℕ)) (errno : Bool) (stop : Stop)
      {q : TcpPeer}
      → find fd h.server.peers ≡ some number
      → notifi_read now first second lines errno stop (record (h.peer number) { effects = [] })
        ≡ ok q
      → Step h
          (record h { server = apply_effects q.effects h.server; peer = update h.peer number q })
  deletes : Step h (record h { server = (delete_peer_timer h.server).0 })
  stops : Step h (record h { server = close h.server })

-- From the server of echo_server.cc on, with its counter.
pub data Reach : Hosted → Type 0 where
  starts :
      (opens : Bool) (peer : ℕ → TcpPeer)
      → Reach (record { server = register_counter (new_server opens); peer = peer })
  later : {h k : Hosted} → Reach h → Step h k → Reach k
