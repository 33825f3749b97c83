-- ===== src/Client/Tests.antt =====
-- Runs of tcp/tcp_client.cc: a client of 5000 bytes, whose kernel takes its writes.
use tcp_congestion_mininet.Common.{
  ◌≡◌, refl, arith, true, false, ltb, ◌&&◌, ◌||◌, if◌then◌else◌, none, [], ◌∷◌, ◌++◌,
}
use tcp_congestion_mininet.Common.Int.{pos}
use tcp_congestion_mininet.Common.Lists.{take, replicate}
use tcp_congestion_mininet.Socket.{ok, ◌>>=◌, accepts, would_block, end_of_file}
use tcp_congestion_mininet.Client.{TcpClient, notifi_read, congestion_optval, c_strlen}
use tcp_congestion_mininet.Client.Send.{header_message, write_packet_loop, next_write_time}
use tcp_congestion_mininet.Client.Write.{Batch, write_packet_loop-Batch}
use tcp_congestion_mininet.Client.Header.{take-header_message}
use tcp_congestion_mininet.Client.Progress.{IsSending, Continues, next_write_time-Continues}
use tcp_congestion_mininet.Client.Quiet.{decreases}
use tcp_congestion_mininet.Client.Deactive.{IsCounted, notifi_read-decreases}
use tcp_congestion_mininet.Client.Abort.{next_write_time-aborted}
use tcp_congestion_mininet.Socket.{aborted}

abbrev client : TcpClient
client = record {
  client_id = 7;
  has_counter = true;
  sockfd = pos 5;
  asyconnect = false;
  connected = true;
  first_sent = false;
  recv_ack = false;
  send_byte = 0;
  total_byte = 5000;
  cc_algo = [];
  deactive_sent = false;
  read_event_registed = false;
  tcp_bytes_sent = 0;
  min_rtt = 0;
  rtt = 0;
  log_open = false;
  wire = record { answers = accepts 1399 ∷ accepts 9 ∷ would_block ∷ []; stream = [] };
  effects = [];
}

client-IsSending : IsSending client
client-IsSending = record {
  total_low = omega arith;
  total_high = omega arith;
  within = omega arith;
  before = λ e. (refl, refl);
  after = λ e. (cc);
}

client-IsCounted : IsCounted client
client-IsCounted = record { yet = λ e. refl; told = λ e. (cc) }

-- A name of sixteen bytes leaves no room for its terminator.
long_name : c_strlen (congestion_optval (replicate 16 98)) ≡ none
unfolding c_strlen congestion_optval
long_name = refl

take-header_message_example :
    take 8 (header_message 7 5000) ≡ (0 ∷ 0 ∷ 0 ∷ 7 ∷ []) ++ (0 ∷ 0 ∷ 19 ∷ 136 ∷ [])
take-header_message_example = take-header_message 7 5000

write_packet_loop-Batch_example : Batch 3600 0 client (write_packet_loop 3600 3600 0 client)
write_packet_loop-Batch_example = write_packet_loop-Batch 3600 3600 0 client

next_write_time-Continues_example : Continues client (next_write_time 3 client >>= λ (d, _). ok d)
next_write_time-Continues_example = next_write_time-Continues 3 client client-IsSending

notifi_read-decreases_example :
    IsCounted (notifi_read 2 false end_of_file none none client)
    × (decreases (notifi_read 2 false end_of_file none none client).effects
        ≡ (if (ltb 0 2 || false) && true then 1 else 0))
notifi_read-decreases_example =
    notifi_read-decreases 2 false end_of_file none none client client-IsCounted

-- A kernel that takes only half of the first packet.
abbrev short_client : TcpClient
short_client = record client { wire = record { answers = accepts 699 ∷ []; stream = [] } }

short_client-IsSending : IsSending short_client
short_client-IsSending = record {
  total_low = omega arith;
  total_high = omega arith;
  within = omega arith;
  before = λ e. (refl, refl);
  after = λ e. (cc);
}

next_write_time-aborted_example : next_write_time 3 short_client ≡ aborted
next_write_time-aborted_example =
    next_write_time-aborted 3 short_client short_client-IsSending refl refl (λ h. omega arith)

-- A client with three bytes to go.
abbrev late_client : TcpClient
late_client = record client {
  total_byte = 1403;
  send_byte = 1400;
  first_sent = true;
  wire = record {
    answers = accepts 0 ∷ accepts 4 ∷ accepts 0 ∷ [];
    stream = header_message 7 1403 ++ [];
  };
}
