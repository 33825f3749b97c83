-- ===== src/Client/Quiet.antt =====
-- The operations of tcp/tcp_client.cc that leave the counter of active clients alone.
use tcp_congestion_mininet.Common.{
  ℕ, suc, ltb, ◌-◌, ◌+◌, ◌≡◌, refl, ap, ◌∙◌, arith, Bool, true, false, ◌&&◌, Option, none, some,
  List, [], ◌∷◌, ◌++◌, if◌then◌else◌, if-elim,
}
use tcp_congestion_mininet.Common.Int.{pos, is_negative, is_positive}
use tcp_congestion_mininet.Client.{
  TcpClient, emit, stop_use_once_task, notifi_connect_task, stop_conection_thread, syn_connect,
  notifi_connect, log_tcp_info_task, TcpInfo, Effect, start_thread, join_thread, decrease,
  set_nonblock, delete_file_event, post, time_event, set_send_buf, set_recv_buf, file_event,
  close_fd, set_congestion, log_line, update_tcp_info, log_tcp_info_event, delete_read_event, close,
}

-- The calls of Decrease.
abbrev pub decreases : List Effect → ℕ
decreases [] = 0
decreases (decrease ∷ es) = suc (decreases es)
decreases (start_thread ∷ es) = decreases es
decreases (join_thread ∷ es) = decreases es
decreases (set_nonblock ∷ es) = decreases es
decreases (delete_file_event ∷ es) = decreases es
decreases (post t n ∷ es) = decreases es
decreases (time_event n ∷ es) = decreases es
decreases (set_send_buf n ∷ es) = decreases es
decreases (set_recv_buf n ∷ es) = decreases es
decreases (file_event fd ∷ es) = decreases es
decreases (close_fd fd ∷ es) = decreases es
decreases (set_congestion bytes n ∷ es) = decreases es
decreases (log_line a b c d e ∷ es) = decreases es

pub decreases-append : (es fs : List Effect) → decreases (es ++ fs) ≡ decreases es + decreases fs
decreases-append [] fs = omega arith
decreases-append (decrease ∷ es) fs = omega (arith, decreases-append es fs)
decreases-append (start_thread ∷ es) fs = decreases-append es fs
decreases-append (join_thread ∷ es) fs = decreases-append es fs
decreases-append (set_nonblock ∷ es) fs = decreases-append es fs
decreases-append (delete_file_event ∷ es) fs = decreases-append es fs
decreases-append (post t n ∷ es) fs = decreases-append es fs
decreases-append (time_event n ∷ es) fs = decreases-append es fs
decreases-append (set_send_buf n ∷ es) fs = decreases-append es fs
decreases-append (set_recv_buf n ∷ es) fs = decreases-append es fs
decreases-append (file_event fd ∷ es) fs = decreases-append es fs
decreases-append (close_fd fd ∷ es) fs = decreases-append es fs
decreases-append (set_congestion bytes n ∷ es) fs = decreases-append es fs
decreases-append (log_line a b c d e ∷ es) fs = decreases-append es fs

-- `d` made the same calls of Decrease as `c`, and knows as much of them.
pub record Quiet (c d : TcpClient) : Type 0 where
  pub calls : decreases d.effects ≡ decreases c.effects
  pub sent : d.deactive_sent ≡ c.deactive_sent
  pub counter : d.has_counter ≡ c.has_counter

pub Quiet-trans : (c d e : TcpClient) → Quiet c d → Quiet d e → Quiet c e
Quiet-trans c d e p q = record {
  calls = q.calls ∙ p.calls;
  sent = q.sent ∙ p.sent;
  counter = q.counter ∙ p.counter;
}

-- One effect more, which is no call of Decrease.
pub one_more :
    (c d : TcpClient) (e : Effect)
    → decreases (e ∷ []) ≡ 0
    → d.effects ≡ c.effects ++ e ∷ []
    → d.deactive_sent ≡ c.deactive_sent
    → d.has_counter ≡ c.has_counter
    → Quiet c d
one_more c d e quiet effects sent counter = record {
  calls = omega (arith, ap decreases effects, decreases-append c.effects (e ∷ []), quiet);
  sent = sent;
  counter = counter;
}

pub same :
    (c d : TcpClient)
    → d.effects ≡ c.effects
    → d.deactive_sent ≡ c.deactive_sent
    → d.has_counter ≡ c.has_counter
    → Quiet c d
same c d effects sent counter = record {
  calls = ap decreases effects;
  sent = sent;
  counter = counter;
}

delete_read_event-Quiet : (c : TcpClient) → Quiet c (delete_read_event c)
unfolding delete_read_event
delete_read_event-Quiet c =
    if-elim (Quiet c) (c.read_event_registed && is_positive c.sockfd)
      (λ _. one_more c (emit (delete_file_event ∷ []) c) delete_file_event refl refl refl refl)
      (λ _. same c c refl refl refl)

log_line-Quiet :
    (lost : ℕ) (c : TcpClient)
    → Quiet c (
        if c.log_open
        then emit (log_line c.client_id c.rtt c.min_rtt lost c.tcp_bytes_sent ∷ []) c
        else c)
log_line-Quiet lost c =
    let line = log_line c.client_id c.rtt c.min_rtt lost c.tcp_bytes_sent in
    if-elim (Quiet c) c.log_open (λ _. one_more c (emit (line ∷ []) c) line refl refl refl refl)
      (λ _. same c c refl refl refl)

pub update_tcp_info-Quiet :
    (answer : Option TcpInfo) (c : TcpClient) → Quiet c (update_tcp_info answer c)
unfolding update_tcp_info
update_tcp_info-Quiet none c =
    if-elim (Quiet c) (is_negative c.sockfd) (λ _. same c c refl refl refl)
      (λ _.
        log_line-Quiet
          (if ltb c.total_byte c.tcp_bytes_sent then c.tcp_bytes_sent - c.total_byte else 0) c)
update_tcp_info-Quiet (some info) c =
    let d : TcpClient = record c {
      tcp_bytes_sent = info.tcpi_bytes_sent;
      min_rtt = info.tcpi_min_rtt;
      rtt = info.tcpi_rtt;
    } in
    let lost = if ltb d.total_byte d.tcp_bytes_sent then d.tcp_bytes_sent - d.total_byte else 0 in
    if-elim (Quiet c) (is_negative c.sockfd) (λ _. same c c refl refl refl)
      (λ _.
        Quiet-trans c d
          (if d.log_open
            then emit (log_line d.client_id d.rtt d.min_rtt lost d.tcp_bytes_sent ∷ []) d
            else d)
          (same c d refl refl refl) (log_line-Quiet lost d))

pub log_tcp_info_event-Quiet :
    (answer : Option TcpInfo) (c : TcpClient) → Quiet c (log_tcp_info_event answer c)
unfolding log_tcp_info_event
log_tcp_info_event-Quiet answer c =
    let d = update_tcp_info answer c in
    let e = emit (post log_tcp_info_task 5000 ∷ []) d in
    let q = update_tcp_info-Quiet answer c in
    if-elim (Quiet c) d.deactive_sent (λ _. q)
      (λ _. Quiet-trans c d e q (one_more d e (post log_tcp_info_task 5000) refl refl refl refl))

pub close-Quiet : (answer : Option TcpInfo) (c : TcpClient) → Quiet c (close answer c)
unfolding close
close-Quiet answer c =
    let d = delete_read_event c in
    let e = update_tcp_info answer d in
    let f : TcpClient = record (emit (close_fd e.sockfd ∷ []) e) { sockfd = pos 0 } in
    if-elim (Quiet c) (is_positive c.sockfd)
      (λ _. Quiet-trans c d f (delete_read_event-Quiet c) (
        Quiet-trans d e f (update_tcp_info-Quiet answer d)
          (one_more e f (close_fd e.sockfd) refl refl refl refl)))
      (λ _. same c c refl refl refl)

stop_conection_thread-Quiet : (c : TcpClient) → Quiet c (stop_conection_thread c)
unfolding stop_conection_thread
stop_conection_thread-Quiet c =
    if-elim (Quiet c) c.asyconnect
      (λ _. one_more c _ (post stop_use_once_task 0) refl refl refl refl)
      (λ _. same c c refl refl refl)

posted-Quiet :
    (c d : TcpClient)
    → Quiet c d
    → Quiet c (stop_conection_thread (emit (post notifi_connect_task 0 ∷ []) d))
posted-Quiet c d q =
    let e : TcpClient = emit (post notifi_connect_task 0 ∷ []) d in
    Quiet-trans c e (stop_conection_thread e)
      (Quiet-trans c d e q (one_more d e (post notifi_connect_task 0) refl refl refl refl))
      (stop_conection_thread-Quiet e)

pub syn_connect-Quiet : (connects : Bool) (c : TcpClient) → Quiet c (syn_connect connects c)
unfolding syn_connect
syn_connect-Quiet true c =
    if-elim (Quiet c) (is_negative c.sockfd) (λ _. stop_conection_thread-Quiet c)
      (λ _.
        posted-Quiet c (record c { connected = true })
          (same c (record c { connected = true }) refl refl refl))
syn_connect-Quiet false c =
    if-elim (Quiet c) (is_negative c.sockfd) (λ _. stop_conection_thread-Quiet c)
      (λ _. posted-Quiet c c (same c c refl refl refl))

registered-Quiet :
    (registers : Bool) (c : TcpClient)
    → Quiet c (
        emit
          ((set_nonblock ∷ time_event 1 ∷ file_event c.sockfd ∷ [])
            ++ (if registers then [] else close_fd c.sockfd ∷ []))
          c)
registered-Quiet registers c = record {
  calls = decreases-append c.effects _ ∙ omega (arith, none_more registers);
  sent = refl;
  counter = refl;
}
  where
    none_more :
        (registers : Bool)
        → decreases (
            (set_nonblock ∷ time_event 1 ∷ file_event c.sockfd ∷ [])
            ++ (if registers then [] else close_fd c.sockfd ∷ []))
          ≡ 0
    none_more true = refl
    none_more false = refl

pub notifi_connect-Quiet :
    (registers : Bool) (answer : Option TcpInfo) (c : TcpClient)
    → Quiet c (notifi_connect registers answer c)
unfolding notifi_connect
notifi_connect-Quiet registers answer c =
    if-elim (λ d. Quiet c (log_tcp_info_event answer d)) c.connected
      (λ _.
        let d : TcpClient =
          emit
            ((set_nonblock ∷ time_event 1 ∷ file_event c.sockfd ∷ [])
              ++ (if registers then [] else close_fd c.sockfd ∷ []))
            c in
        Quiet-trans c d (log_tcp_info_event answer d) (registered-Quiet registers c)
          (log_tcp_info_event-Quiet answer d))
      (λ _. log_tcp_info_event-Quiet answer c)
