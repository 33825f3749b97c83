-- ===== src/Client/Kept.antt =====
-- What the operations of tcp/tcp_client.cc other than the timer leave of the message that is being sent,
-- and what the timer leaves of the counter.
use tcp_congestion_mininet.Common.{
  [], ◌∷◌, ◌++◌, if◌then◌else◌, ◌&&◌, ℕ, zero, suc, ◌≡◌, refl, ap, sym, subst, ◌∙◌, Bool, true,
  false, not, ◌==◌, Option, none, some, List, if-elim,
}
use tcp_congestion_mininet.Common.Int.{is_negative, is_positive, is_zero, to_nat}
use tcp_congestion_mininet.Socket.{Outcome, ok, aborted, ◌>>=◌, check, Wire, Stop, errno_after}
use tcp_congestion_mininet.Client.{
  emit, decrease, set_nonblock, time_event, file_event, close_fd, delete_read_event, close,
  TcpClient, TcpInfo, Effect, update_tcp_info, log_tcp_info_event, notifi_deactive_msg, notifi_read,
  stop_conection_thread, syn_connect, notifi_connect, max_line,
}
use tcp_congestion_mininet.Client.Send.{
  write_packet_loop, write_packet_in_batch, get_batch_size, increase_write_bytes, header_message,
  write_batch, write_first, next_write_time,
}
use tcp_congestion_mininet.Client.Write.{
  Writes, Batch, write_message-Writes, write_packet_loop-Batch,
}
use tcp_congestion_mininet.Client.Progress.{IsSending}

-- The part of a client that the message hangs on.
abbrev pub core : TcpClient → ℕ × ℕ × ℕ × Bool × Wire
core c = (c.client_id, c.total_byte, c.send_byte, c.first_sent, c.wire)

update_tcp_info-core :
    (answer : Option TcpInfo) (c : TcpClient) → core (update_tcp_info answer c) ≡ core c
unfolding update_tcp_info
update_tcp_info-core none c =
    if-elim (λ d. core d ≡ core c) (is_negative c.sockfd) (λ _. refl)
      (λ _. if-elim (λ d. core d ≡ core c) c.log_open (λ _. refl) (λ _. refl))
update_tcp_info-core (some info) c =
    if-elim (λ d. core d ≡ core c) (is_negative c.sockfd) (λ _. refl)
      (λ _. if-elim (λ d. core d ≡ core c) c.log_open (λ _. refl) (λ _. refl))

pub log_tcp_info_event-core :
    (answer : Option TcpInfo) (c : TcpClient) → core (log_tcp_info_event answer c) ≡ core c
unfolding log_tcp_info_event
log_tcp_info_event-core answer c =
    if-elim (λ d. core d ≡ core c) (update_tcp_info answer c).deactive_sent
      (λ _. update_tcp_info-core answer c) (λ _. update_tcp_info-core answer c)

notifi_deactive_msg-core :
    (answer : Option TcpInfo) (c : TcpClient) → core (notifi_deactive_msg answer c) ≡ core c
unfolding notifi_deactive_msg
notifi_deactive_msg-core answer c =
    let d : TcpClient = if c.has_counter then emit (decrease ∷ []) c else c in
    let same : core d ≡ core c =
      if-elim (λ (x : TcpClient). core x ≡ core c) c.has_counter (λ _. refl) (λ _. refl) in
    if-elim (λ d. core d ≡ core c) c.deactive_sent (λ _. refl)
      (λ _. log_tcp_info_event-core answer (record d { deactive_sent = true }) ∙ same)

delete_read_event-core : (c : TcpClient) → core (delete_read_event c) ≡ core c
unfolding delete_read_event
delete_read_event-core c =
    if-elim (λ d. core d ≡ core c) (c.read_event_registed && is_positive c.sockfd) (λ _. refl)
      (λ _. refl)

close-core : (answer : Option TcpInfo) (c : TcpClient) → core (close answer c) ≡ core c
unfolding close
close-core answer c =
    if-elim (λ d. core d ≡ core c) (is_positive c.sockfd)
      (λ _. update_tcp_info-core answer (delete_read_event c) ∙ delete_read_event-core c)
      (λ _. refl)

-- Reads, whether the descriptor is closed after them or not.
pub notifi_read-core :
    (reads : ℕ) (errno : Bool) (stop : Stop) (logged closed : Option TcpInfo) (c : TcpClient)
    → core (notifi_read reads errno stop logged closed c) ≡ core c
unfolding notifi_read
notifi_read-core zero errno stop logged closed c =
    if-elim (λ d. core d ≡ core c) (errno_after errno stop) (λ _. refl) (λ _. close-core closed c)
notifi_read-core (suc reads) errno stop logged closed c =
    notifi_read-core reads errno stop logged closed
      (notifi_deactive_msg logged (record c { recv_ack = true }))
    ∙ notifi_deactive_msg-core logged (record c { recv_ack = true })

stop_conection_thread-core : (c : TcpClient) → core (stop_conection_thread c) ≡ core c
unfolding stop_conection_thread
stop_conection_thread-core c = if-elim (λ d. core d ≡ core c) c.asyconnect (λ _. refl) (λ _. refl)

pub syn_connect-core : (connects : Bool) (c : TcpClient) → core (syn_connect connects c) ≡ core c
unfolding syn_connect
syn_connect-core true c =
    if-elim (λ d. core d ≡ core c) (is_negative c.sockfd) (λ _. stop_conection_thread-core c)
      (λ _. stop_conection_thread-core _)
syn_connect-core false c =
    if-elim (λ d. core d ≡ core c) (is_negative c.sockfd) (λ _. stop_conection_thread-core c)
      (λ _. stop_conection_thread-core _)

pub notifi_connect-core :
    (registers : Bool) (answer : Option TcpInfo) (c : TcpClient)
    → core (notifi_connect registers answer c) ≡ core c
unfolding notifi_connect
notifi_connect-core registers answer c =
    let events = set_nonblock ∷ time_event 1 ∷ file_event c.sockfd ∷ [] in
    let d : TcpClient = emit (events ++ (if registers then [] else close_fd c.sockfd ∷ [])) c in
    if-elim (λ x. core (log_tcp_info_event answer x) ≡ core c) c.connected
      (λ _. log_tcp_info_event-core answer d) (λ _. log_tcp_info_event-core answer c)

-- The timer keeps what the client and its counter know of each other.
abbrev pub told : TcpClient → Bool × Bool × List Effect
told c = (c.deactive_sent, c.has_counter, c.effects)

abbrev pub Untold : TcpClient → Outcome TcpClient → Type 0
Untold c aborted = Unit {0}
Untold c (ok d) = told d ≡ told c

increased-Untold :
    (n : ℕ) (c : TcpClient) (r : Outcome (TcpClient × ℕ))
    → Batch n 0 c r
    → Untold c (r >>= λ (d, write). ok (increase_write_bytes write d))
unfolding increase_write_bytes
increased-Untold n c aborted b = tt
increased-Untold n c (ok (d, t)) (k, sum, le, s) = ap told s.same

write_batch-Untold : (c : TcpClient) → Untold c (write_batch c)
unfolding write_batch write_packet_in_batch
write_batch-Untold c =
    let n = to_nat (get_batch_size c) in
    increased-Untold n c (write_packet_loop n n 0 c) (write_packet_loop-Batch n n 0 c)

Untold-trans : (c d : TcpClient) (r : Outcome TcpClient) → told d ≡ told c → Untold d r → Untold c r
Untold-trans c d aborted e u = tt
Untold-trans c d (ok x) e u = u ∙ e

write_first-Untold : (c : TcpClient) → Untold c (write_first c)
unfolding write_first
write_first-Untold c = go _ (write_message-Writes (header_message c.client_id c.total_byte) c)
  where
    go :
        (r : Outcome (TcpClient × ℕ))
        → Writes (header_message c.client_id c.total_byte) c r
        → Untold c (
            r >>= λ (d, ret).
            check
              (ret == max_line)
              (write_batch (record (increase_write_bytes ret d) { first_sent = true })))
    go aborted w = tt
    go (ok (d, ret)) (le, s) = checked (ret == max_line)
      where
        sent : told (record (increase_write_bytes ret d) { first_sent = true }) ≡ told c
        sent = unfold increase_write_bytes in ap told s.same

        checked :
            (b : Bool)
            → Untold c
                (check b (write_batch (record (increase_write_bytes ret d) { first_sent = true })))
        checked true =
            Untold-trans c (record (increase_write_bytes ret d) { first_sent = true })
              (write_batch (record (increase_write_bytes ret d) { first_sent = true })) sent
              (write_batch-Untold (record (increase_write_bytes ret d) { first_sent = true }))
        checked false = tt

pub next_write_time-Untold :
    (next : ℕ) (c : TcpClient) → Untold c (next_write_time next c >>= λ (d, _). ok d)
unfolding next_write_time
next_write_time-Untold next c =
    if-elim P (not (is_positive c.sockfd)) (λ _. refl)
      (λ _.
        if-elim P (is_zero (get_batch_size c)) (λ _. refl)
          (λ _.
            if-elim P c.first_sent (λ _. dropped (write_batch c) (write_batch-Untold c))
              (λ _. dropped (write_first c) (write_first-Untold c))))
  where
    P : Outcome (TcpClient × ℕ) → Type 0
    P r = Untold c (r >>= λ (d, _). ok d)

    dropped : (r : Outcome TcpClient) → Untold c r → P (r >>= λ d. ok (d, next))
    dropped aborted u = tt
    dropped (ok d) u = u

with_core : TcpClient → ℕ × ℕ × ℕ × Bool × Wire → TcpClient
with_core d (id, total, send, first, w) = record d {
  client_id = id;
  total_byte = total;
  send_byte = send;
  first_sent = first;
  wire = w;
}

-- The part of a client that the message hangs on decides whether the client is sending it right.
pub core-IsSending : (c d : TcpClient) → core d ≡ core c → IsSending c → IsSending d
unfolding with_core
core-IsSending c d e v =
    subst (λ x. IsSending (with_core d x)) (sym e)
      (record {
        total_low = v.total_low;
        total_high = v.total_high;
        within = v.within;
        before = v.before;
        after = v.after;
      })
