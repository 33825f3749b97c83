-- ===== src/Redis.antt =====
-- redis-main.cc: a server with one set of global counters for all its connections.
-- The calls into the event loop, the kernel and the trace are recorded as effects, oldest first. An int
-- is its 32-bit pattern; `now` is the time since the start in milliseconds, below 2 ^ 63.
pub mod Rounds
pub mod Reads
mod Tests
use tcp_congestion_mininet.Common.{
  ℕ, zero, suc, ◌+◌, ◌%◌, Bool, true, false, List, [], ◌∷◌, ◌++◌, ltb, leb, if◌then◌else◌,
}
use tcp_congestion_mininet.Common.Lists.{length}
use tcp_congestion_mininet.Common.Words.{u32_mod}
use tcp_congestion_mininet.Common.Int.{ℤ, pos, negsuc, signed32}
use tcp_congestion_mininet.Socket.{Stop, errno_after}
use tcp_congestion_mininet.Peer.{header_values}

abbrev pub k_log_interval : ℕ
k_log_interval = 5000

-- `"read done"` with its terminating zero.
abbrev pub done_msg : List ℕ
done_msg = b'r' ∷ b'e' ∷ b'a' ∷ b'd' ∷ b' ' ∷ b'd' ∷ b'o' ∷ b'n' ∷ b'e' ∷ 0 ∷ []

pub data Effect : Type 0 where
  delete_file_event close_fd file_event : ℤ → Effect
  send : ℤ → List ℕ → Effect
  trace : ℕ → ℕ → ℕ → Effect

-- The globals, and whether the descriptor of the connection is open.
pub record Globals : Type 0 where
  pub client_id : ℕ
  pub bytes_total : ℕ
  pub bytes_read : ℕ
  pub first_packet : Bool
  pub next_log_time : ℕ
  pub has_trace : Bool
  pub is_open : Bool
  pub effects : List Effect

-- Before the first connection, as main leaves them.
abbrev pub new_globals : Globals
new_globals = record {
  client_id = 0;
  bytes_total = 0;
  bytes_read = 0;
  first_packet = true;
  next_log_time = 0;
  has_trace = true;
  is_open = false;
  effects = [];
}

abbrev pub emit : List Effect → Globals → Globals
emit es g = record g { effects = g.effects ++ es }

-- `a <= b` for two ints
abbrev pub int_leb : ℕ → ℕ → Bool
int_leb a b = leb ((a + 0x80000000) % u32_mod) ((b + 0x80000000) % u32_mod)

-- `now > nextLogTime`, where the int is widened.
abbrev pub is_later : ℕ → ℤ → Bool
is_later now (pos n) = ltb n now
is_later now (negsuc n) = true

-- What it prints is left out.
unfoldable pub client_close : ℤ → Globals → Globals
client_close fd g = record (emit (delete_file_event fd ∷ close_fd fd ∷ []) g) { is_open = false }

-- The result of write is only logged.
unfoldable pub send_read_done : ℤ → Globals → Globals
send_read_done fd g = emit (send fd done_msg ∷ []) g

unfoldable pub log_read_bytes : ℕ → Globals → Globals
log_read_bytes now g = if g.has_trace then emit (trace g.client_id now g.bytes_read ∷ []) g else g

-- `first` and `second` are what stood in the memory of the two locals.
unfoldable pub read_header : ℕ → ℕ → ℕ → List ℕ → Globals → Globals
unfolding log_read_bytes
read_header now first second line g =
    let (id, total) = header_values first second line in
    let h = log_read_bytes now (record g { client_id = id; bytes_total = total }) in
    record h { next_log_time = (now + k_log_interval) % u32_mod; first_packet = false }

unfoldable pub log_progress : ℕ → Globals → Globals
unfolding log_read_bytes
log_progress now g =
    if is_later now (signed32 g.next_log_time)
    then record (log_read_bytes now g) { next_log_time = (now + k_log_interval) % u32_mod }
    else g

unfoldable pub finish : ℤ → Globals → Globals
unfolding client_close send_read_done
finish fd g =
    if int_leb g.bytes_total g.bytes_read then client_close fd (send_read_done fd g) else g

-- One round of the loop of ReadFromClient, on what `read` put into `line`.
unfoldable pub read_line : ℤ → ℕ → ℕ → ℕ → List ℕ → Globals → Globals
unfolding read_header log_progress finish
read_line fd now first second line g =
    let h : Globals = if g.first_packet then read_header now first second line g else g in
    finish fd (log_progress now (record h { bytes_read = (h.bytes_read + length line) % u32_mod }))

-- The reads that return data, and the last one, which does not; `errno` says whether errno was
-- EWOULDBLOCK or EAGAIN before. A read of the closed descriptor fails with EBADF, whatever the peer
-- has sent.
unfoldable pub read_from_client : ℤ → ℕ → ℕ → ℕ → List (List ℕ) → Bool → Stop → Globals → Globals
unfolding read_line client_close
read_from_client fd now first second [] errno stop g =
    if g.is_open
    then (if errno_after errno stop then g else client_close fd g)
    else client_close fd g
read_from_client fd now first second (line ∷ lines) errno stop g =
    let rest =
      read_from_client fd now first second lines errno stop
        (read_line fd now first second line g) in
    if g.is_open then rest else client_close fd g

-- `fd` is the listening socket, `cfd` what anetTcpAccept answers; the loop may refuse the event.
unfoldable pub accept_tcp_handler : ℤ → ℤ → Bool → Globals → Globals
accept_tcp_handler fd cfd registers g =
    let h : Globals = record (emit (file_event cfd ∷ []) g) { is_open = true } in
    if registers then h else emit (close_fd fd ∷ []) h
