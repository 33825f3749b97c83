-- ===== src/Echo.antt =====
-- echo_client.cc and echo_server.cc: the counter of the flows that are still active, the clients that
-- the sender starts, and the main loops.
pub mod Loop
pub mod Program
pub mod Start
mod Tests
use tcp_congestion_mininet.Common.{
  ℕ, zero, suc, ◌+◌, ◌*◌, Bool, true, false, not, List, [], ◌∷◌, ◌++◌, if◌then◌else◌,
}
use tcp_congestion_mininet.Common.Int.{ℤ, pos, negsuc, is_positive}
use tcp_congestion_mininet.Socket.{Wrote}
use tcp_congestion_mininet.Client.{TcpClient, new_client, set_sender_info, bind, asyn_connect}

-- The byte number of every flow.
abbrev pub total_send : ℕ
total_send = 60 * 1024 * 1024

-- clients_--
unfoldable pub decrease : ℤ → ℤ
decrease (pos zero) = negsuc 0
decrease (pos (suc n)) = pos n
decrease (negsuc n) = negsuc (suc n)

unfoldable pub is_all_deactive : ℤ → Bool
is_all_deactive clients = not (is_positive clients)

-- The calls of Decrease that one LoopOnce makes.
unfoldable pub decrease_times : ℕ → ℤ → ℤ
decrease_times zero clients = clients
decrease_times (suc n) clients = decrease_times n (decrease clients)

-- What a run of the main loop came to: the exit by a signal, the exit by the counter, or no exit in
-- the rounds that were given.
pub data Exit : Type 0 where
  signalled all_deactive still_running : Exit

-- A round: what m_running is before it, and how often LoopOnce calls Decrease.
unfoldable pub main_loop : List (Bool × ℕ) → ℤ → Exit
main_loop [] clients = still_running
main_loop ((running, n) ∷ rounds) clients =
    let left = decrease_times n clients in
    let rest = main_loop rounds left in
    if running then (if is_all_deactive left then all_deactive else rest) else signalled

-- What the kernel answers to one client: the descriptor, whether the local address parses, and the
-- answers to its later writes.
pub record Host : Type 0 where
  pub fd : ℤ
  pub valid_ip : Bool
  pub answers : List Wrote

unfoldable pub start_client : List ℕ → ℕ → Host → TcpClient
start_client cc client_id h =
    let c = bind h.fd h.valid_ip (new_client true cc h.answers) in
    asyn_connect (set_sender_info client_id total_send c)

-- The loop over the connections, with a host's answers for each.
unfoldable pub start_clients : List ℕ → ℕ → List Host → List TcpClient
start_clients cc client_id [] = []
start_clients cc client_id (h ∷ hosts) =
    start_client cc client_id h ∷ start_clients cc (suc client_id) hosts
