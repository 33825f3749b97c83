-- ===== src/Peer/Tests.antt =====
-- Runs of tcp/tcp_peer.cc: a peer that has four of ten bytes, and one that has read nothing.
use tcp_congestion_mininet.Common.{ℕ, ◌≡◌, refl, arith, true, false, List, [], ◌∷◌}
use tcp_congestion_mininet.Common.Int.{pos}
use tcp_congestion_mininet.Socket.{ok, fails, end_of_file, accepts}
use tcp_congestion_mininet.Peer.{TcpPeer, notifi_read}
use tcp_congestion_mininet.Peer.First.{IsNew}
use tcp_congestion_mininet.Peer.Reading.{After, IsSettled, notifi_read-After}

abbrev peer : TcpPeer
peer = record {
  sockfd = pos 9;
  first_packet = false;
  client_id = 7;
  recv_byte = 4;
  total_byte = 10;
  has_trace = true;
  next_time_print_log = 0;
  send_read_done = false;
  wire = record { answers = accepts 20 ∷ []; stream = [] };
  effects = [];
}

abbrev new : TcpPeer
new = record peer { first_packet = true; client_id = 0; recv_byte = 0; total_byte = 0 }

peer-IsSettled : IsSettled peer
peer-IsSettled = record { done = refl; told = refl }

new-IsNew : IsNew new
new-IsNew = record { first = refl; recv = refl; done = refl; told = refl }

abbrev line : List ℕ
line = 0 ∷ 0 ∷ 0 ∷ 7 ∷ 0 ∷ 0 ∷ 0 ∷ 12 ∷ 1 ∷ []

-- At the end of the stream the peer is left open if errno still says EAGAIN.
stale_errno : notifi_read 0 0 0 [] true end_of_file peer ≡ ok peer
unfolding notifi_read
stale_errno = refl

notifi_read-After_example :
    After 7 10 10
      (notifi_read 20 0 0 ((1 ∷ 2 ∷ []) ∷ (3 ∷ 4 ∷ 5 ∷ 6 ∷ []) ∷ []) false (fails true) peer)
notifi_read-After_example =
    notifi_read-After 20 0 0 ((1 ∷ 2 ∷ []) ∷ (3 ∷ 4 ∷ 5 ∷ 6 ∷ []) ∷ []) false (fails true) peer refl
      peer-IsSettled (omega arith)
