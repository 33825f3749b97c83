-- ===== src/Server/Tests.antt =====
-- Runs of tcp/tcp_server.cc: two connections, of which one closes and is deleted.
use tcp_congestion_mininet.Common.{◌≡◌, refl, true, [], ◌∷◌}
use tcp_congestion_mininet.Common.Int.{pos}
use tcp_congestion_mininet.Server.{
  TcpServer, register_counter, new_server, find, insert, erase, accept, peer_close,
  delete_peer_list, delete_peer_timer,
}
use tcp_congestion_mininet.Server
use tcp_congestion_mininet.Server.Peers
use tcp_congestion_mininet.Server.Peers.{
  IsOwned, then_handles, closes, delete_timer, handle, Reachable-IsOwned,
}
use tcp_congestion_mininet.Common.{ℕ, false, List, update}
use tcp_congestion_mininet.Socket
use tcp_congestion_mininet.Socket.{ok, fails}
use tcp_congestion_mininet.Server.Hosted.{
  Hosted, accepted_peer, apply_effects, Reach, starts, later, accepts, reads,
}
use tcp_congestion_mininet.Server.Finished.{IsCounted, Reach-IsCounted}
use tcp_congestion_mininet.Common.{Bool}
use tcp_congestion_mininet.Socket.{Returns}
use tcp_congestion_mininet.Echo.{all_deactive, is_all_deactive, decrease_times, decrease}
use tcp_congestion_mininet.Echo.Program.{main_states}
use tcp_congestion_mininet.Server.{create_socket}
use tcp_congestion_mininet.Server.Main.{set_up, main, leave}
use tcp_congestion_mininet.Peer
use tcp_congestion_mininet.Codec
use tcp_congestion_mininet.Peer.{TcpPeer, notifi_read, done_message}

abbrev server : TcpServer
server = handle delete_timer (
    handle (closes 7) (
      handle (Server.Peers.accepts (pos 8))
        (handle (Server.Peers.accepts (pos 7)) (new_server true))))

server_peers : (server.peers ≡ (8, 1) ∷ []) × (server.deleted ≡ 0 ∷ [])
unfolding new_server accept find insert erase peer_close delete_peer_list delete_peer_timer
server_peers = (refl, refl)

Reachable-IsOwned_example : IsOwned server
Reachable-IsOwned_example = Reachable-IsOwned server (
    then_handles delete_timer (
      then_handles (closes 7) (
        then_handles (Server.Peers.accepts (pos 8))
          (then_handles (Server.Peers.accepts (pos 7)) (Server.Peers.starts true)))))

-- A host whose first peer reads the header of client 7, with a total of eight bytes.
abbrev line : List ℕ
line = 0 ∷ 0 ∷ 0 ∷ 7 ∷ 0 ∷ 0 ∷ 0 ∷ 8 ∷ []

abbrev begun : Hosted
begun = record { server = register_counter (new_server true); peer = λ _. accepted_peer 3 true [] }

abbrev accepted : Hosted → Hosted
accepted h = record h {
  server = accept (pos 7) h.server;
  peer = update h.peer h.server.next_peer (accepted_peer 7 true (Socket.accepts 20 ∷ []));
}

abbrev read_peer : TcpPeer
read_peer = record {
  sockfd = pos 7;
  first_packet = false;
  client_id = 7;
  recv_byte = 8;
  total_byte = 8;
  has_trace = true;
  next_time_print_log = 5020;
  send_read_done = true;
  wire = record { answers = []; stream = done_message };
  effects = Peer.trace 7 20 0 ∷ Peer.trace 7 20 8 ∷ Peer.on_peer_read_done ∷ [];
}

abbrev read_by : Hosted → Hosted
read_by h = record h {
  server = apply_effects read_peer.effects h.server;
  peer = update h.peer 0 read_peer;
}

done-Reach : Reach (read_by (accepted begun))
unfolding find accept new_server insert notifi_read Peer.read_line Peer.count_line Peer.finish
    Peer.log_progress accepted_peer Peer.set_trace_recv_fun Peer.new_peer Peer.read_header
    Peer.report_recv_length Peer.header_values Codec.read_uint Codec.read_bytes Codec.byte_swap
    Codec.from_le Codec.le_bytes Codec.new_reader Peer.answer_write Peer.send_done_signal
    Peer.write_message
done-Reach =
    later (later (starts true begun.peer) (accepts 7 true (Socket.accepts 20 ∷ [])))
      (reads 7 0 20 0 0 (line ∷ []) false (fails true) refl refl)

Reach-IsCounted_example : IsCounted (read_by (accepted begun))
Reach-IsCounted_example = Reach-IsCounted done-Reach

-- The same peer in a run of the server's main with one flow, whose second round is the last.
abbrev served : Hosted
served = record begun {
  server = record (begun.server) { listenfd = 3; has_loop = true; registered = true };
}

abbrev rounds : List (Bool × Hosted)
rounds =
    (true, accepted served)
    ∷ (true, read_by (accepted served))
    ∷ (false, read_by (accepted served))
    ∷ []

served_exit :
    Returns
      (λ (x, h). (x ≡ all_deactive) × (h.server.listenfd ≡ 0))
      (main true (pos 3) true begun.peer 1 rounds)
unfolding main set_up create_socket main_states leave Server.close find accept new_server insert
    apply_effects is_all_deactive decrease_times decrease Server.on_peer_read_done_msg
    Server.on_trace_data
served_exit = (refl, refl)
