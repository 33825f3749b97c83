-- ===== src/Trace.antt =====
-- tcp/tcp_trace.h and tcp/tcp_trace.cc: the log of the bytes that a server received.
use tcp_congestion_mininet.Common.{ℕ, Bool, false, List, [], ◌∷◌, ◌++◌, if◌then◌else◌}

-- The file is open or not; its lines are a client, a time and a number of bytes.
pub record TcpTrace : Type 0 where
  pub is_open : Bool
  pub lines : List (ℕ × ℕ × ℕ)

unfoldable pub open_trace_file : Bool → TcpTrace
open_trace_file opens = record { is_open = opens; lines = [] }

unfoldable pub on_recv_data : ℕ → ℕ → ℕ → TcpTrace → TcpTrace
on_recv_data client_id ts len t =
    if t.is_open then record t { lines = t.lines ++ (client_id, ts, len) ∷ [] } else t

unfoldable pub close : TcpTrace → TcpTrace
close t = if t.is_open then record t { is_open = false } else t
