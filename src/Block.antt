-- ===== src/Block.antt =====
-- block_client.cc: a client that writes its bytes to a blocking socket, until none remain. Main has the
-- set-up of the socket and the wait for the reply.
pub mod Totals
pub mod Main
mod Tests
use tcp_congestion_mininet.Common.{
  ℕ, zero, suc, ◌+◌, ◌-◌, ◌*◌, Bool, true, false, Option, none, some, List, [], ◌∷◌, ◌++◌, ◌==◌,
  min, if◌then◌else◌,
}
use tcp_congestion_mininet.Common.Lists.{take, replicate}
use tcp_congestion_mininet.Client.Send.{header_message}

abbrev pub k_buffer_length : ℕ
k_buffer_length = 1400

abbrev pub client_id : ℕ
client_id = 12

abbrev pub total_send : ℕ
total_send = 100 * 1024 * 1024

-- The variables of the loop, and the bytes that the socket took.
pub record BlockClient : Type 0 where
  pub byte_remain : ℕ
  pub first_packet : Bool
  pub send_buff : List ℕ
  pub stream : List ℕ

abbrev pub new_block_client : BlockClient
new_block_client = record {
  byte_remain = total_send;
  first_packet = true;
  send_buff = replicate k_buffer_length 0;
  stream = [];
}

-- The header goes into the buffer, which is still all zeros.
unfoldable pub write_header : BlockClient → BlockClient
write_header b =
    if b.first_packet
    then record b { send_buff = header_message client_id total_send; first_packet = false }
    else b

-- One round: `write` fails, which is -1, or takes at most so many bytes.
unfoldable pub send_round : Option ℕ → BlockClient → BlockClient
send_round none b = let c = write_header b in record c { byte_remain = suc c.byte_remain }
send_round (some n) b =
    let c = write_header b in
    let ret = min n (min k_buffer_length c.byte_remain) in
    record c { stream = c.stream ++ take ret c.send_buff; byte_remain = c.byte_remain - ret }

pub data Exit : Type 0 where
  signalled write_done still_running : Exit

-- The rounds: what m_running is before each, and the answer to its write.
unfoldable pub send_loop : List (Bool × Option ℕ) → BlockClient → Exit × BlockClient
send_loop [] b = (still_running, b)
send_loop ((running, answer) ∷ rounds) b =
    let rest = send_loop rounds (send_round answer b) in
    if running then (if b.byte_remain == 0 then (write_done, b) else rest) else (signalled, b)
