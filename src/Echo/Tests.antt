-- ===== src/Echo/Tests.antt =====
-- Runs of echo_client.cc and echo_server.cc with two flows.
use tcp_congestion_mininet.Common.{ℕ, ◌≡◌, Bool, true, false, List, [], ◌∷◌, map}
use tcp_congestion_mininet.Common.Int.{pos}
use tcp_congestion_mininet.Client.{TcpClient}
use tcp_congestion_mininet.Echo.{Host, start_clients}
use tcp_congestion_mininet.Echo.Start.{AllStarted, count_from, start_clients-IsStarted}

abbrev rounds : List (Bool × ℕ)
rounds = (true, 1) ∷ (true, 0) ∷ (true, 2) ∷ []

abbrev hosts : List Host
hosts =
    record { fd = pos 5; valid_ip = true; answers = [] }
    ∷ record { fd = pos 6; valid_ip = false; answers = [] }
    ∷ []

start_clients-IsStarted_example :
    AllStarted hosts (start_clients (99 ∷ []) 1 hosts)
    × (map TcpClient.client_id (start_clients (99 ∷ []) 1 hosts) ≡ count_from 1 2)
start_clients-IsStarted_example = start_clients-IsStarted (99 ∷ []) 1 hosts
