-- ===== src/Transfer/Trial.antt =====
-- A transfer of the smallest message, for trials: its client, its peer, and their states on the way.
use tcp_congestion_mininet.Common.{
  ◌+◌, none, ◌∙◌, ℕ, List, ◌≡◌, refl, arith, true, false, [], ◌∷◌, ◌++◌,
}
use tcp_congestion_mininet.Common.Int.{pos}
use tcp_congestion_mininet.Socket.{ok, fails, accepts}
use tcp_congestion_mininet.Client.{TcpClient, start_thread, time_event, file_event}
use tcp_congestion_mininet.Client.Send.{
  header_message, next_write_time, write_first, write_message, answer_write, increase_write_bytes,
  get_batch_size, write_batch, write_packet_in_batch, write_packet_loop,
}
use tcp_congestion_mininet.Client.Header.{length-header_message}
use tcp_congestion_mininet.Client.Progress.{IsSending, message}
use tcp_congestion_mininet.Peer.{
  TcpPeer, notifi_read, header_values, done_message, trace, on_peer_read_done, read_line,
  read_header, count_line, log_progress, finish, report_recv_length, send_done_signal,
}
use mathlib.Core.List.{append-nil}
use tcp_congestion_mininet.Transfer.System.{
  Connection, HasHeader, newest, older, Step, timer, deliver, reply, Reach, here, later,
}
use tcp_congestion_mininet.Transfer.Able.{IsAble}
use tcp_congestion_mininet.Common.Lists.{replicate, length-replicate}
use tcp_congestion_mininet.Common.{zero, suc}
use tcp_congestion_mininet.Socket.{IsAccepting}
use tcp_congestion_mininet.Socket.{Wrote}
use tcp_congestion_mininet.Transfer.Safety.{IsStart}
use tcp_congestion_mininet.Client
use tcp_congestion_mininet.Codec
use tcp_congestion_mininet.Peer
use tcp_congestion_mininet.Common.Lists.{length-append, length, length-take, take}

abbrev pub client : TcpClient
client = record {
  client_id = 7;
  has_counter = true;
  sockfd = pos 5;
  asyconnect = false;
  connected = true;
  first_sent = true;
  recv_ack = false;
  send_byte = 1400;
  total_byte = 1400;
  cc_algo = [];
  deactive_sent = false;
  read_event_registed = false;
  tcp_bytes_sent = 0;
  min_rtt = 0;
  rtt = 0;
  log_open = false;
  wire = record { answers = []; stream = header_message 7 1400 ++ [] };
  effects = [];
}

pub client-IsSending : IsSending client
client-IsSending = record {
  total_low = omega arith;
  total_high = omega arith;
  within = omega arith;
  before = λ e. (cc);
  after = λ e. (omega arith, refl);
}

abbrev pub peer : TcpPeer
peer = record {
  sockfd = pos 9;
  first_packet = true;
  client_id = 0;
  recv_byte = 0;
  total_byte = 0;
  has_trace = true;
  next_time_print_log = 0;
  send_read_done = false;
  wire = record { answers = accepts 20 ∷ []; stream = [] };
  effects = [];
}

abbrev pub fresh_client : TcpClient
fresh_client = record client {
  first_sent = false;
  send_byte = 0;
  wire = record { answers = accepts 1399 ∷ []; stream = [] };
  effects = time_event 1 ∷ file_event (pos 5) ∷ [];
}

pub fresh_client-IsSending : IsSending fresh_client
fresh_client-IsSending = record {
  total_low = omega arith;
  total_high = omega arith;
  within = omega arith;
  before = λ e. (refl, refl);
  after = λ e. (cc);
}

abbrev pub begun : Connection
begun = record { client = fresh_client; peer = peer; delivered = 0; heard = 0 }

pub begun-IsStart : IsStart 7 1400 begun
begun-IsStart = record {
  sending = fresh_client-IsSending;
  named = refl;
  sized = refl;
  told = refl;
  calls = refl;
  new = record { first = refl; recv = refl; done = refl; told = refl };
  unanswered = refl;
  undelivered = refl;
  unheard = refl;
}

-- The client after its first packet.
abbrev pub sent_client : TcpClient
sent_client = record fresh_client {
  first_sent = true;
  send_byte = 1400;
  wire = record { answers = []; stream = take 1400 (header_message 7 1400) };
}

pub sent_run : next_write_time 3 fresh_client ≡ ok (sent_client, 3)
unfolding next_write_time write_first write_message answer_write increase_write_bytes get_batch_size
    write_batch write_packet_in_batch write_packet_loop
sent_run = rw (length-header_message 7 1400) refl

-- The peer's only read.
abbrev pub first_line : List ℕ
first_line = take 1400 (header_message 7 1400)

pub values : header_values 0 0 first_line ≡ (7, 1400)
unfolding header_values header_message Codec.new_writer Codec.new_reader Codec.read_uint
    Codec.read_bytes Codec.write_uint Codec.write_bytes Codec.le_bytes Codec.byte_swap Codec.from_le
values = refl

pub length-first_line : length first_line ≡ 1400
length-first_line =
    omega (arith, length-take 1400 (header_message 7 1400), length-header_message 7 1400)

abbrev pub read_peer : TcpPeer
read_peer = record peer {
  first_packet = false;
  client_id = 7;
  recv_byte = 1400;
  total_byte = 1400;
  next_time_print_log = 5020;
  send_read_done = true;
  wire = record { answers = []; stream = done_message };
  effects = trace 7 20 0 ∷ trace 7 20 1400 ∷ on_peer_read_done ∷ [];
}

pub peer_run : notifi_read 20 0 0 (first_line ∷ []) false (fails true) peer ≡ ok read_peer
unfolding notifi_read read_line read_header count_line log_progress finish report_recv_length
    send_done_signal Peer.write_message Peer.answer_write
peer_run = rw values (rw length-first_line refl)

-- The timer, the read of the peer, and the client's read of the answer.
abbrev pub finished : Connection
finished = record {
  client = Client.notifi_read 1 false (fails true) none none sent_client;
  peer = read_peer;
  delivered = 0 + (length first_line + 0);
  heard = 14;
}

abbrev pub delivered : Connection
delivered = record {
  client = sent_client;
  peer = read_peer;
  delivered = 0 + (length first_line + 0);
  heard = 0;
}

pub sent-Step : Step HasHeader begun (record begun { client = sent_client })
sent-Step = timer 3 3 newest sent_run

pub delivered-Step : Step HasHeader (record begun { client = sent_client }) delivered
delivered-Step =
    deliver 20 0 0 (first_line ∷ []) [] false (fails true) (λ e. omega (arith, length-first_line))
      (append-nil (first_line ++ []) ∙ append-nil first_line) peer_run

pub finished-Step : Step HasHeader delivered finished
finished-Step =
    reply (pos 5) (older newest) 1 14 false (fails true) none none (omega arith) (omega arith)

pub finished-Reach : Reach HasHeader begun finished
finished-Reach = later (later (later here sent-Step) delivered-Step) finished-Step

-- Two connections whose kernels take whatever is written.
abbrev pub kernel : List Wrote
kernel = replicate 1400 (accepts 1399)

pub kernel-IsAccepting : (n : ℕ) → IsAccepting (replicate n (accepts 1399))
kernel-IsAccepting zero = tt
kernel-IsAccepting (suc n) = kernel-IsAccepting n

abbrev pub able : ℕ → Connection
able id = record begun {
  client = record fresh_client {
    client_id = id;
    connected = false;
    wire = record { answers = kernel; stream = [] };
    effects = start_thread ∷ [];
  };
}

pub able-IsAble : (id : ℕ) → IsAble id 1400 (able id)
able-IsAble id = record {
  clear = record {
    line = message (able id).client;
    lines = [];
    begins = record {
      sending = record {
        total_low = omega arith;
        total_high = omega arith;
        within = omega arith;
        before = λ e. (refl, refl);
        after = λ e. (cc);
      };
      named = refl;
      sized = refl;
      told = refl;
      calls = refl;
      new = record { first = refl; recv = refl; done = refl; told = refl };
      unanswered = refl;
      undelivered = refl;
      unheard = refl;
    };
    ready = record {
      opened = refl;
      accepting = kernel-IsAccepting 1400;
      room = omega (arith, length-replicate 1400 (accepts 1399));
      first = omega arith;
    };
    counter = refl;
    opened = refl;
    heard = (refl, refl, (20, [], refl, omega arith));
    long = omega (arith, length-append (header_message id 1400) [], length-header_message id 1400);
    cut = append-nil (message (able id).client);
  };
  started = newest;
}
