-- ===== src/Transfer/Tests.antt =====
-- Runs of a client and a peer, and of the client program with a few connections.
use tcp_congestion_mininet.Common.{◌+◌, List, ◌≡◌, refl, arith, true, false, [], ◌∷◌, ◌++◌}
use tcp_congestion_mininet.Common.Int.{pos}
use tcp_congestion_mininet.Socket.{fails, accepts}
use tcp_congestion_mininet.Client.{TcpClient}
use tcp_congestion_mininet.Client.Send.{header_message}
use tcp_congestion_mininet.Client.Header.{length-header_message}
use tcp_congestion_mininet.Peer.{notifi_read}
use tcp_congestion_mininet.Peer.Reading.{After}
use tcp_congestion_mininet.Transfer.{transfer_lem}
use tcp_congestion_mininet.Transfer.System.{Connection, newest, older, connect, start}
use tcp_congestion_mininet.Transfer.Experiment.{
  mine, other, over, more, calls_of, AllComplete, main_states-AllComplete, start_all, main,
  main-AllComplete,
}
use tcp_congestion_mininet.Echo.{
  Host, total_send, all_deactive, is_all_deactive, decrease_times, decrease,
}
use tcp_congestion_mininet.Echo.Program.{main_states}
use tcp_congestion_mininet.Server.{TcpServer, new_server, register_counter}
use tcp_congestion_mininet.Server.Peers.{IsOwned}
use tcp_congestion_mininet.Server.Hosted.{apply_effects, starts}
use tcp_congestion_mininet.Server.Finished.{Reach-IsCounted}
use tcp_congestion_mininet.Transfer.Both
use tcp_congestion_mininet.Transfer.Both.{Merged, done, next, main_states-apply_effects}
use tcp_congestion_mininet.Socket.{Wrote}
use tcp_congestion_mininet.Common.{Bool, ◌⊎◌, ◌≢◌, ◌<◌}
use tcp_congestion_mininet.Common.Int.{ℤ}
use tcp_congestion_mininet.Transfer.Safety.{IsComplete, Reach-IsComplete}
use tcp_congestion_mininet.Client
use tcp_congestion_mininet.Echo
use tcp_congestion_mininet.Peer
use tcp_congestion_mininet.Common.Lists.{length}
use tcp_congestion_mininet.Transfer.Trial.{
  client, client-IsSending, peer, begun, begun-IsStart, read_peer, finished, delivered, sent-Step,
  delivered-Step, finished-Step, finished-Reach,
}

transfer_lem_example :
    After 7 1400 1400 (notifi_read 20 0 0 (header_message 7 1400 ∷ []) false (fails true) peer)
transfer_lem_example =
    transfer_lem client 20 0 0 (header_message 7 1400) [] false (fails true) peer client-IsSending
      refl (omega arith) (record { first = refl; recv = refl; done = refl; told = refl })
      (omega (arith, length-header_message 7 1400)) refl

Reach-IsComplete_example : IsComplete 7 1400 finished
unfolding Client.notifi_read Client.notifi_deactive_msg Client.log_tcp_info_event
    Client.update_tcp_info
Reach-IsComplete_example =
    Reach-IsComplete 7 1400 (omega arith) begun-IsStart finished-Reach (omega arith)

-- A client with three bytes to go.
abbrev late_client : TcpClient
late_client = record client {
  total_byte = 1403;
  wire = record {
    answers = accepts 0 ∷ accepts 4 ∷ accepts 0 ∷ [];
    stream = header_message 7 1403 ++ [];
  };
}

-- The program with this connection as its only flow, in two rounds, of which the second ends it.
abbrev rounds : List (Bool × List Connection)
rounds = (true, delivered ∷ []) ∷ (true, finished ∷ []) ∷ []

rounds_exit : (main_states calls_of 1 rounds (begun ∷ [])).0 ≡ all_deactive
unfolding main_states calls_of is_all_deactive decrease_times decrease Client.notifi_read
    Client.notifi_deactive_msg Client.log_tcp_info_event Client.update_tcp_info
rounds_exit = refl

main_states-AllComplete_example :
    let (x, ds) = main_states calls_of 1 rounds (begun ∷ []) in
    ((x ≡ all_deactive) × (length ds ≡ 1) × AllComplete 7 1400 ds)
    ⊎ ((x ≢ all_deactive) × (calls_of ds < 1))
main_states-AllComplete_example =
    main_states-AllComplete 7 1400 1 (begun ∷ []) refl rounds (omega arith) (omega arith)
      (begun-IsStart, tt)
      (
        more (more over (mine sent-Step)) (mine delivered-Step),
        (more over (mine finished-Step), tt),
      )

-- The client program with two flows, of which the second connects.
abbrev hosts : List (Host × ℤ × List Wrote)
hosts =
    (record { fd = pos 5; valid_ip = true; answers = [] }, pos 8, [])
    ∷ (record { fd = pos 6; valid_ip = true; answers = [] }, pos 9, [])
    ∷ []

abbrev second : Connection
second = start (99 ∷ []) 2 (record { fd = pos 6; valid_ip = true; answers = [] }) (pos 9) []

abbrev connecting : List (Bool × List Connection)
connecting =
    (
      true,
      start (99 ∷ []) 1 (record { fd = pos 5; valid_ip = true; answers = [] }) (pos 8) []
          ∷ record second { client = Client.syn_connect true second.client }
          ∷ [],
    )
    ∷ []

main-AllComplete_example :
    let (x, ds) = main (99 ∷ []) 1 hosts connecting in
    ((x ≡ all_deactive) × (length ds ≡ 2) × AllComplete 1 total_send ds)
    ⊎ ((x ≢ all_deactive) × (calls_of ds < 2))
unfolding start Echo.start_client Peer.set_trace_recv_fun Client.asyn_connect Client.set_sender_info
    Client.bind Client.new_client
main-AllComplete_example =
    main-AllComplete (99 ∷ []) 1 hosts connecting (omega arith) (omega arith)
      (unfold start_all in (more over (other (mine (connect true (older newest)))), tt))

-- The server of the finished connection.
abbrev server : TcpServer
server = register_counter (new_server true)

server-IsOwned : IsOwned server
server-IsOwned = (Reach-IsCounted (starts true (λ _. peer))).owned

main_states-apply_effects_example :
    ((apply_effects read_peer.effects server).decreased ≡ server.decreased + 1)
    × (is_all_deactive (decrease_times (apply_effects read_peer.effects server).decreased (pos 1))
        ≡ true)
unfolding main_states calls_of is_all_deactive decrease_times decrease Client.notifi_read
    Client.notifi_deactive_msg Client.log_tcp_info_event Client.update_tcp_info
main_states-apply_effects_example =
    main_states-apply_effects 7 1400 1 (begun ∷ []) rounds server read_peer.effects refl
      (omega arith) (omega arith) (begun-IsStart, tt)
      (
        more (more over (mine sent-Step)) (mine delivered-Step),
        (more over (mine finished-Step), tt),
      )
      refl server-IsOwned (next Both.mine (next Both.mine (next Both.mine (done (refl, tt))))) refl
