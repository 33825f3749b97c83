-- ===== src/Peer.antt =====
-- tcp/tcp_peer.h and tcp/tcp_peer.cc: the server's side of one connection.
-- The calls into the server, the trace and the socket are recorded as effects, oldest first. Times
-- are unsigned 32-bit patterns, as the code compares them.
pub mod Counting
pub mod Reading
pub mod First
pub mod Speaking
pub mod Telling
mod Tests
use tcp_congestion_mininet.Common.{
  ℕ, zero, suc, ◌+◌, ◌%◌, Bool, true, false, not, ◌&&◌, ◌||◌, Option, none, some, List, [], ◌∷◌,
  ◌++◌, ltb, leb, ◌==◌, if◌then◌else◌,
}
use tcp_congestion_mininet.Common.Lists.{length, take, replicate}
use tcp_congestion_mininet.Common.Words.{u32_mod}
use tcp_congestion_mininet.Common.Int.{ℤ, pos, negsuc, is_negative, is_positive}
use tcp_congestion_mininet.Codec.{network_order, new_reader, read_uint32}
use tcp_congestion_mininet.Socket.{
  Outcome, ok, aborted, ◌>>=◌, Wrote, accepts, would_block, breaks, Wire, taken, Stop, errno_after,
}

abbrev pub k_log_interval : ℕ
k_log_interval = 5000

abbrev pub k_buffer_size : ℕ
k_buffer_size = 1500

pub data Effect : Type 0 where
  trace : ℕ → ℕ → ℕ → Effect
  peer_close close_fd : ℤ → Effect
  set_send_buf set_recv_buf : ℕ → Effect
  on_peer_read_done : Effect

pub record TcpPeer : Type 0 where
  pub sockfd : ℤ
  pub first_packet : Bool
  pub client_id : ℕ
  pub recv_byte : ℕ
  pub total_byte : ℕ
  pub has_trace : Bool
  pub next_time_print_log : ℕ
  pub send_read_done : Bool
  pub wire : Wire
  pub effects : List Effect

abbrev pub emit : List Effect → TcpPeer → TcpPeer
emit es p = record p { effects = p.effects ++ es }

unfoldable pub close : TcpPeer → TcpPeer
close p =
    let q : TcpPeer =
      if is_positive p.sockfd
      then record (emit (close_fd p.sockfd ∷ []) p) { sockfd = pos 0 }
      else p in
    record q { has_trace = false }

-- The constructor: the event loop says whether it registers the descriptor.
unfoldable pub new_peer : ℤ → Bool → List Wrote → TcpPeer
unfolding close
new_peer fd registers answers =
    let p : TcpPeer = record {
      sockfd = fd;
      first_packet = true;
      client_id = 0;
      recv_byte = 0;
      total_byte = 0;
      has_trace = false;
      next_time_print_log = 0;
      send_read_done = false;
      wire = record { answers = answers; stream = [] };
      effects = [];
    } in
    if registers then p else close p

abbrev pub set_send_buf_size : ℕ → TcpPeer → TcpPeer
set_send_buf_size len p = if is_negative p.sockfd then p else emit (set_send_buf len ∷ []) p

abbrev pub set_recv_buf_size : ℕ → TcpPeer → TcpPeer
set_recv_buf_size len p = if is_negative p.sockfd then p else emit (set_recv_buf len ∷ []) p

unfoldable pub set_trace_recv_fun : TcpPeer → TcpPeer
set_trace_recv_fun p = record p { has_trace = true }

unfoldable pub report_recv_length : ℕ → TcpPeer → TcpPeer
report_recv_length now p =
    if p.has_trace then emit (trace p.client_id now p.recv_byte ∷ []) p else p

-- "read all done" with its terminating zero.
abbrev pub done_message : List ℕ
done_message =
    b'r' ∷ b'e' ∷ b'a' ∷ b'd' ∷ b' ' ∷ b'a' ∷ b'l' ∷ b'l' ∷ b' ' ∷ b'd' ∷ b'o' ∷ b'n' ∷ b'e' ∷ 0
    ∷ []

unfoldable pub answer_write : List ℕ → TcpPeer → List Wrote → Outcome TcpPeer
answer_write msg p [] = ok p
answer_write msg p (accepts k ∷ rest) =
    let n = taken k (length msg) in
    let wire : Wire = record { answers = rest; stream = p.wire.stream ++ take n msg } in
    ok (record p { wire = wire })
answer_write msg p (would_block ∷ rest) =
    ok (record p { wire = record (p.wire) { answers = rest } })
answer_write msg p (breaks ∷ rest) = aborted

-- The number of bytes that it returns is used by no caller.
unfoldable pub write_message : List ℕ → TcpPeer → Outcome TcpPeer
write_message msg p = if is_positive p.sockfd then answer_write msg p p.wire.answers else ok p

unfoldable pub send_done_signal : TcpPeer → Outcome TcpPeer
send_done_signal p = write_message done_message p

-- The two integers of the first packet: `first` and `second` keep what stood in their memory where
-- the read fails.
unfoldable pub header_values : ℕ → ℕ → List ℕ → ℕ × ℕ
header_values first second line =
    let (r1, a) = read_uint32 (new_reader line (length line) network_order) in
    let (r2, b) = read_uint32 r1 in
    (elim a [ none ↦ first | some x ↦ x ], elim b [ none ↦ second | some x ↦ x ])

unfoldable pub read_header : ℕ → ℕ → ℕ → List ℕ → TcpPeer → TcpPeer
read_header now first second line p =
    let (id, total) = header_values first second line in
    let q = record p { client_id = id; total_byte = total } in
    record (report_recv_length now q) {
      next_time_print_log = (now + k_log_interval) % u32_mod;
      first_packet = false;
    }

unfoldable pub log_progress : ℕ → TcpPeer → TcpPeer
log_progress now p =
    if leb p.next_time_print_log now
    then record (report_recv_length now p) {
      next_time_print_log = (now + k_log_interval) % u32_mod;
    }
    else p

unfoldable pub finish : ℕ → TcpPeer → Outcome TcpPeer
finish now p =
    let q = report_recv_length now p in
    let done = send_done_signal q >>= λ r.
    ok (record (emit (on_peer_read_done ∷ []) r) { send_read_done = true }) in
    if leb p.total_byte p.recv_byte then (if p.send_read_done then ok q else done) else ok p

-- The rest of a round of the loop of NotifiRead, after the first packet's header.
unfoldable pub count_line : ℕ → List ℕ → TcpPeer → Outcome TcpPeer
count_line now line p =
    let q = record p { recv_byte = (p.recv_byte + length line) % u32_mod } in
    finish now (log_progress now q)

-- One round of the loop of NotifiRead, on what `read` put into `line`.
unfoldable pub read_line : ℕ → ℕ → ℕ → List ℕ → TcpPeer → Outcome TcpPeer
read_line now first second line p =
    count_line now line (if p.first_packet then read_header now first second line p else p)

-- The reads that return data, and the last one, which does not; `errno` says whether errno was
-- EWOULDBLOCK or EAGAIN before it.
unfoldable pub notifi_read : ℕ → ℕ → ℕ → List (List ℕ) → Bool → Stop → TcpPeer → Outcome TcpPeer
notifi_read now first second [] errno stop p =
    if errno_after errno stop then ok p else ok (close (emit (peer_close p.sockfd ∷ []) p))
notifi_read now first second (line ∷ lines) errno stop p =
    read_line now first second line p >>= λ q. notifi_read now first second lines errno stop q
