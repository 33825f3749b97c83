-- ===== src/Server/Main.antt =====
-- main of echo_server.cc over the server with its peers.
use tcp_congestion_mininet.Common.{ℕ, ◌≤◌, ◌<◌, ◌≡◌, ◌≢◌, ◌⊎◌, Bool, List}
use tcp_congestion_mininet.Common.Int.{ℤ}
use tcp_congestion_mininet.Socket.{Outcome, ok, ◌>>=◌}
use tcp_congestion_mininet.Peer.{TcpPeer}
use tcp_congestion_mininet.Server.{new_server, register_counter, create_socket, close}
use tcp_congestion_mininet.Server.Hosted.{Hosted, Step}
use tcp_congestion_mininet.Server.Made.{finished}
use tcp_congestion_mininet.Server.Finished.{IsCounted}
use tcp_congestion_mininet.Echo.{Exit, signalled, all_deactive, still_running}
use tcp_congestion_mininet.Echo.Program.{Program, main_states}

-- What the event loop calls in one turn.
pub data Steps (h : Hosted) : Hosted → Type 0 where
  over : Steps h h
  more : {k l : Hosted} → Steps h k → Step k l → Steps h l

abbrev pub server_program : Program Hosted
server_program = record { calls = λ h. h.server.decreased; LoopOnce = Steps }

-- After the loop, unless it still runs.
unfoldable pub leave : Exit × Hosted → Exit × Hosted
leave (still_running, h) = (still_running, h)
leave (signalled, h) = (signalled, record h { server = close h.server })
leave (all_deactive, h) = (all_deactive, record h { server = close h.server })

-- The server before the loop: whether the log opens, the answer to the making of its socket, and whether
-- the event loop takes the socket's event.
unfoldable pub set_up : Bool → ℤ → Bool → (ℕ → TcpPeer) → Outcome Hosted
set_up opens answer registers peer =
    create_socket answer registers (register_counter (new_server opens)) >>= λ s.
    ok (record { server = s; peer = peer })

unfoldable pub main :
    Bool → ℤ → Bool → (ℕ → TcpPeer) → ℕ → List (Bool × Hosted) → Outcome (Exit × Hosted)
main opens answer registers peer flows rounds = set_up opens answer registers peer >>= λ h.
    ok (leave (main_states server_program.calls flows rounds h))

-- What main leaves: the exit by the counter is that of enough finished peers, and the server has closed its
-- socket.
pub record Served (flows : ℕ) (x : Exit) (h : Hosted) : Type 0 where
  pub counted : IsCounted h
  pub enough :
      ((x ≡ all_deactive) × (flows ≤ finished h.server.next_peer h.peer))
      ⊎ ((x ≢ all_deactive) × (finished h.server.next_peer h.peer < flows))
  pub shut : x ≢ still_running → h.server.listenfd ≡ 0
