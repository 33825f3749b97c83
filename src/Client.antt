-- ===== src/Client.antt =====
-- tcp/tcp_client.h and tcp/tcp_client.cc: a client that sends `totalByte_` bytes from a timer.
-- The calls into the event loop, the thread, the log and the counter are recorded as effects, oldest
-- first; the answers of the kernel and of the random generator are arguments.
pub mod Send
pub mod Write
pub mod Header
pub mod Progress
pub mod Quiet
pub mod Deactive
pub mod Answers
pub mod Live
pub mod Abort
pub mod Ahead
pub mod Finish
pub mod Kept
mod Tests
use tcp_congestion_mininet.Common.{
  ℕ, zero, suc, ◌+◌, ◌-◌, ◌%◌, Bool, true, false, not, ◌&&◌, Option, none, some, List, [], ◌∷◌,
  ◌++◌, ltb, leb, ◌==◌, if◌then◌else◌, min,
}
use tcp_congestion_mininet.Common.Lists.{length, take, replicate}
use tcp_congestion_mininet.Common.Words.{u32_mod, sub32}
use tcp_congestion_mininet.Common.Int.{
  ℤ, pos, negsuc, is_negative, is_positive, is_zero, signed32, to_nat,
}
use tcp_congestion_mininet.Codec.{network_order, new_writer, write_uint32}
use mathlib.Core.Option
use tcp_congestion_mininet.Socket.{
  Outcome, ok, aborted, ◌>>=◌, check, Wrote, accepts, would_block, breaks, Wire, taken, Stop,
  errno_after,
}

abbrev pub max_line : ℕ
max_line = 1400

abbrev pub packet_batch_size : ℕ
packet_batch_size = 10

abbrev pub tcp_cc_name_max : ℕ
tcp_cc_name_max = 16

abbrev pub log_interval : ℕ
log_interval = 5000

-- The closures that the client posts to its thread.
pub data ClientTask : Type 0 where
  notifi_connect_task stop_use_once_task log_tcp_info_task : ClientTask

pub data Effect : Type 0 where
  start_thread join_thread decrease set_nonblock delete_file_event : Effect
  post : ClientTask → ℕ → Effect
  time_event : ℕ → Effect
  set_send_buf set_recv_buf : ℕ → Effect
  file_event close_fd : ℤ → Effect
  set_congestion : List ℕ → Option ℕ → Effect
  log_line : ℕ → ℕ → ℕ → ℕ → ℕ → Effect

pub record TcpInfo : Type 0 where
  pub tcpi_bytes_sent : ℕ
  pub tcpi_min_rtt : ℕ
  pub tcpi_rtt : ℕ

pub record TcpClient : Type 0 where
  pub client_id : ℕ
  pub has_counter : Bool
  pub sockfd : ℤ
  pub asyconnect : Bool
  pub connected : Bool
  pub first_sent : Bool
  pub recv_ack : Bool
  pub send_byte : ℕ
  pub total_byte : ℕ
  pub cc_algo : List ℕ
  pub deactive_sent : Bool
  pub read_event_registed : Bool
  pub tcp_bytes_sent : ℕ
  pub min_rtt : ℕ
  pub rtt : ℕ
  pub log_open : Bool
  pub wire : Wire
  pub effects : List Effect

abbrev pub emit : List Effect → TcpClient → TcpClient
emit es c = record c { effects = c.effects ++ es }

-- The constructor, before Bind.
unfoldable pub new_client : Bool → List ℕ → List Wrote → TcpClient
new_client has_counter cc_algo answers = record {
  client_id = 0;
  has_counter = has_counter;
  sockfd = negsuc 0;
  asyconnect = false;
  connected = false;
  first_sent = false;
  recv_ack = false;
  send_byte = 0;
  total_byte = 0;
  cc_algo = cc_algo;
  deactive_sent = false;
  read_event_registed = false;
  tcp_bytes_sent = 0;
  min_rtt = 0;
  rtt = 0;
  log_open = false;
  wire = record { answers = answers; stream = [] };
  effects = [];
}

unfoldable pub set_sender_info : ℕ → ℕ → TcpClient → TcpClient
set_sender_info cid length c = record c {
  client_id = cid;
  total_byte = if ltb length max_line then max_line else length;
  log_open = true;
}

-- The sixteen bytes of `optval`, with the name cut to what fits and zeros behind it.
unfoldable pub congestion_optval : List ℕ → List ℕ
congestion_optval cc_algo =
    let copy = min tcp_cc_name_max (length cc_algo) in
    take copy cc_algo ++ replicate (tcp_cc_name_max - copy) 0

-- strlen on the bytes of a buffer: none where no zero is found inside it.
unfoldable pub c_strlen : List ℕ → Option ℕ
c_strlen [] = none
c_strlen (x ∷ xs) = if x == 0 then some 0 else Option.map suc (c_strlen xs)

-- setsockopt with the name and its terminator; with no terminator the length is not the buffer's.
unfoldable pub set_congestion_algo : TcpClient → TcpClient
unfolding congestion_optval c_strlen
set_congestion_algo c =
    let optval = congestion_optval c.cc_algo in
    emit (set_congestion optval (Option.map suc (c_strlen optval)) ∷ []) c

-- `socket` and inet_pton answer.
unfoldable pub bind : ℤ → Bool → TcpClient → TcpClient
unfolding set_congestion_algo
bind fd valid_ip c =
    let d = record c { sockfd = fd } in
    if is_negative fd then d else if valid_ip then set_congestion_algo d else d

abbrev pub set_send_buf_size : ℕ → TcpClient → TcpClient
set_send_buf_size len c = if is_negative c.sockfd then c else emit (set_send_buf len ∷ []) c

abbrev pub set_recv_buf_size : ℕ → TcpClient → TcpClient
set_recv_buf_size len c = if is_negative c.sockfd then c else emit (set_recv_buf len ∷ []) c

unfoldable pub update_tcp_info : Option TcpInfo → TcpClient → TcpClient
update_tcp_info answer c =
    let d : TcpClient = elim answer [
      | none ↦ c
      | some info ↦ record c {
        tcp_bytes_sent = info.tcpi_bytes_sent;
        min_rtt = info.tcpi_min_rtt;
        rtt = info.tcpi_rtt;
      }
    ] in
    let lost = if ltb d.total_byte d.tcp_bytes_sent then d.tcp_bytes_sent - d.total_byte else 0 in
    let logged : TcpClient =
      if d.log_open
      then emit (log_line d.client_id d.rtt d.min_rtt lost d.tcp_bytes_sent ∷ []) d
      else d in
    if is_negative c.sockfd then c else logged

unfoldable pub log_tcp_info_event : Option TcpInfo → TcpClient → TcpClient
unfolding update_tcp_info
log_tcp_info_event answer c =
    let d = update_tcp_info answer c in
    if d.deactive_sent then d else emit (post log_tcp_info_task log_interval ∷ []) d

unfoldable pub asyn_connect : TcpClient → TcpClient
asyn_connect c =
    if is_positive c.sockfd then emit (start_thread ∷ []) (record c { asyconnect = true }) else c

unfoldable pub stop_conection_thread : TcpClient → TcpClient
stop_conection_thread c =
    if c.asyconnect
    then emit (post stop_use_once_task 0 ∷ []) (record c { asyconnect = false })
    else c

unfoldable pub syn_connect : Bool → TcpClient → TcpClient
unfolding stop_conection_thread
syn_connect connects c =
    let d : TcpClient = if connects then record c { connected = true } else c in
    if is_negative c.sockfd
    then stop_conection_thread c
    else stop_conection_thread (emit (post notifi_connect_task 0 ∷ []) d)

unfoldable pub stop_use_once : TcpClient → TcpClient
stop_use_once c = emit (join_thread ∷ []) c

unfoldable pub notifi_connect : Bool → Option TcpInfo → TcpClient → TcpClient
unfolding log_tcp_info_event
notifi_connect registers answer c =
    let events = set_nonblock ∷ time_event 1 ∷ file_event c.sockfd ∷ [] in
    let d : TcpClient =
      if c.connected
      then emit (events ++ (if registers then [] else close_fd c.sockfd ∷ [])) c
      else c in
    log_tcp_info_event answer d

unfoldable pub delete_read_event : TcpClient → TcpClient
delete_read_event c =
    if c.read_event_registed && is_positive c.sockfd then emit (delete_file_event ∷ []) c else c

unfoldable pub close : Option TcpInfo → TcpClient → TcpClient
unfolding delete_read_event update_tcp_info
close answer c =
    let d = update_tcp_info answer (delete_read_event c) in
    if is_positive c.sockfd then record (emit (close_fd d.sockfd ∷ []) d) { sockfd = pos 0 } else c

unfoldable pub notifi_deactive_msg : Option TcpInfo → TcpClient → TcpClient
unfolding log_tcp_info_event
notifi_deactive_msg answer c =
    let d : TcpClient = if c.has_counter then emit (decrease ∷ []) c else c in
    if c.deactive_sent then c else log_tcp_info_event answer (record d { deactive_sent = true })

-- The reads that return data, and then the one that does not, after which the loop breaks. The
-- number of those reads, whether errno says EAGAIN at the start, the last read, and the answers to
-- getsockopt for the log and at the end are given.
unfoldable pub notifi_read :
    ℕ → Bool → Stop → Option TcpInfo → Option TcpInfo → TcpClient → TcpClient
unfolding close notifi_deactive_msg
notifi_read zero errno stop logged closed c = if errno_after errno stop then c else close closed c
notifi_read (suc reads) errno stop logged closed c =
    let d = notifi_deactive_msg logged (record c { recv_ack = true }) in
    notifi_read reads errno stop logged closed d
