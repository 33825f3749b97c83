-- ===== src/Redis/Tests.antt =====
-- A run of redis-main.cc: a second connection, after the first one has brought its 1400 bytes.
use tcp_congestion_mininet.Common.{refl, arith, true, false, [], ◌∷◌}
use tcp_congestion_mininet.Common.Int.{pos}
use tcp_congestion_mininet.Socket.{fails}
use tcp_congestion_mininet.Redis.{Globals, read_from_client}
use tcp_congestion_mininet.Redis.Reads.{IsServed, read_from_client_lem}

abbrev globals : Globals
globals = record {
  client_id = 7;
  bytes_total = 1400;
  bytes_read = 1400;
  first_packet = false;
  next_log_time = 5020;
  has_trace = true;
  is_open = true;
  effects = [];
}

read_from_client_lem_example :
    IsServed
      (pos 9)
      true
      true
      globals
      (read_from_client (pos 9) 6000 0 0 ((8 ∷ []) ∷ []) false (fails true) globals)
read_from_client_lem_example =
    read_from_client_lem (pos 9) 6000 0 0 ((8 ∷ []) ∷ []) false (fails true) globals refl
      (omega arith) (omega arith)
