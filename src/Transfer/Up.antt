-- ===== src/Transfer/Up.antt =====
-- A connection of tcp/tcp_client.cc that comes up: SynConnect and NotifiConnect, after which the timer fires.
use tcp_congestion_mininet.Common.{
  ◌≡◌, refl, subst, ◌∙◌, true, false, none, List, [], ◌∷◌, ◌++◌, if-elim,
}
use tcp_congestion_mininet.Common.Int.{ℤ, pos, negsuc, is_negative, is_positive}
use tcp_congestion_mininet.Client.{
  TcpClient, Effect, emit, start_thread, post, notifi_connect_task, time_event, set_nonblock,
  file_event, update_tcp_info, log_tcp_info_event, stop_conection_thread, syn_connect,
  notifi_connect,
}
use tcp_congestion_mininet.Transfer.System.{
  Connection, HasHeader, Made, newest, older, connect, connected, Reach, here, later,
}

Made-append-left :
    {e : Effect} {es : List Effect} (fs : List Effect) → Made e es → Made e (es ++ fs)
Made-append-left fs newest = newest
Made-append-left fs (older m) = older (Made-append-left fs m)

Made-append-right :
    {e : Effect} (es : List Effect) {fs : List Effect} → Made e fs → Made e (es ++ fs)
Made-append-right [] m = m
Made-append-right (f ∷ es) m = older (Made-append-right es m)

-- `d` has made the calls of `c`, on the same socket, and is connected if `c` is.
record Goes (c d : TcpClient) : Type 0 where
  socket : d.sockfd ≡ c.sockfd
  joined : d.connected ≡ c.connected
  keeps : (e : Effect) → Made e c.effects → Made e d.effects

emit-Goes : (es : List Effect) (c : TcpClient) → Goes c (emit es c)
emit-Goes es c = record { socket = refl; joined = refl; keeps = λ e. Made-append-left es }

Goes-refl : (c : TcpClient) → Goes c c
Goes-refl c = record { socket = refl; joined = refl; keeps = λ e m. m }

Goes-trans : (c d f : TcpClient) → Goes c d → Goes d f → Goes c f
Goes-trans c d f p q = record {
  socket = q.socket ∙ p.socket;
  joined = q.joined ∙ p.joined;
  keeps = λ e m. q.keeps e (p.keeps e m);
}

stop_conection_thread-Goes : (c : TcpClient) → Goes c (stop_conection_thread c)
unfolding stop_conection_thread
stop_conection_thread-Goes c =
    if-elim (Goes c) c.asyconnect
      (λ _. record { socket = refl; joined = refl; keeps = λ e. Made-append-left _ })
      (λ _. Goes-refl c)

update_tcp_info-Goes : (c : TcpClient) → Goes c (update_tcp_info none c)
unfolding update_tcp_info
update_tcp_info-Goes c =
    if-elim (Goes c) (is_negative c.sockfd) (λ _. Goes-refl c)
      (λ _. if-elim (Goes c) c.log_open (λ _. emit-Goes _ c) (λ _. Goes-refl c))

log_tcp_info_event-Goes : (c : TcpClient) → Goes c (log_tcp_info_event none c)
unfolding log_tcp_info_event
log_tcp_info_event-Goes c =
    let d = update_tcp_info none c in
    if-elim (Goes c) d.deactive_sent (λ _. update_tcp_info-Goes c)
      (λ _. Goes-trans c d _ (update_tcp_info-Goes c) (emit-Goes _ d))

-- The client once its connection is up.
abbrev pub up : TcpClient → TcpClient
up c = notifi_connect true none (syn_connect true c)

-- What SynConnect did with an open socket.
record Posted (c d : TcpClient) : Type 0 where
  socket : d.sockfd ≡ c.sockfd
  joined : d.connected ≡ true
  posted : Made (post notifi_connect_task 0) d.effects

open_socket : (fd : ℤ) → is_positive fd ≡ true → is_negative fd ≡ false
open_socket (pos n) e = refl
open_socket (negsuc n) e = absurd (cc e)

syn_connect-Posted : (c : TcpClient) → is_positive c.sockfd ≡ true → Posted c (syn_connect true c)
unfolding syn_connect
syn_connect-Posted c open_ = rw (open_socket c.sockfd open_) (
    let d : TcpClient = emit (post notifi_connect_task 0 ∷ []) (record c { connected = true }) in
    let g = stop_conection_thread-Goes d in
    record {
      socket = g.socket;
      joined = g.joined;
      posted = g.keeps _ (Made-append-right c.effects newest);
    })

-- What NotifiConnect did for a client that is connected.
pub record Timed (c d : TcpClient) : Type 0 where
  pub socket : d.sockfd ≡ c.sockfd
  pub timer : Made (time_event 1) d.effects
  pub reading : Made (file_event c.sockfd) d.effects

notifi_connect-Timed : (c : TcpClient) → c.connected ≡ true → Timed c (notifi_connect true none c)
unfolding notifi_connect
notifi_connect-Timed c e =
    if-elim (λ d. Timed c (log_tcp_info_event none d)) c.connected
      (λ _.
        let d = emit (set_nonblock ∷ time_event 1 ∷ file_event c.sockfd ∷ []) c in
        let g = log_tcp_info_event-Goes d in
        record {
          socket = g.socket;
          timer = g.keeps _ (Made-append-right c.effects (older newest));
          reading = g.keeps _ (Made-append-right c.effects (older (older newest)));
        })
      (λ f. absurd (cc (e, f)))

pub up-Timed : (c : TcpClient) → is_positive c.sockfd ≡ true → Timed c (up c)
up-Timed c open_ =
    let p = syn_connect-Posted c open_ in
    let t = notifi_connect-Timed (syn_connect true c) p.joined in
    record {
      socket = t.socket ∙ p.socket;
      timer = t.timer;
      reading = subst (λ fd. Made (file_event fd) (up c).effects) p.socket t.reading;
    }

pub up-Reach :
    (s : Connection)
    → is_positive s.client.sockfd ≡ true
    → Made start_thread s.client.effects
    → Reach HasHeader s (record s { client = up s.client })
up-Reach s open_ made =
    later (later here (connect true made))
      (connected true none (syn_connect-Posted s.client open_).posted)
