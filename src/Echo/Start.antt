-- ===== src/Echo/Start.antt =====
-- The clients of echo_client.cc before their first timer.
use tcp_congestion_mininet.Common.{
  ◌++◌, sym, ap, ℕ, zero, suc, ◌≡◌, refl, ap₂, ◌∙◌, arith, inl, inr, Bool, true, false, List, [],
  ◌∷◌, map, Bool-cases,
}
use tcp_congestion_mininet.Common.Int.{ℤ, is_negative, is_positive}
use tcp_congestion_mininet.Common.Lists.{length}
use tcp_congestion_mininet.Client.{
  TcpClient, Effect, start_thread, new_client, set_sender_info, set_congestion_algo, bind,
  asyn_connect,
}
use tcp_congestion_mininet.Client.Progress.{IsSending}
use tcp_congestion_mininet.Echo.{Host, total_send, start_client, start_clients}

-- The numbers from `first` on.
abbrev pub count_from : ℕ → ℕ → List ℕ
count_from first zero = []
count_from first (suc n) = first ∷ count_from (suc first) n

-- A client of the program for a host: it has the host's socket, is to send the program's total, and has
-- sent nothing; its thread was started as the last thing, to connect, if the socket is open.
pub record IsStarted (h : Host) (c : TcpClient) : Type 0 where
  pub sending : IsSending c
  pub total : c.total_byte ≡ total_send
  pub fresh : c.first_sent ≡ false
  pub socket : c.sockfd ≡ h.fd
  pub connecting : c.asyconnect ≡ is_positive h.fd
  pub thread : is_positive h.fd ≡ true → (es : List Effect) × (c.effects ≡ es ++ start_thread ∷ [])

-- A client for each host.
abbrev pub AllStarted : List Host → List TcpClient → Type 0
AllStarted [] [] = Unit {0}
AllStarted [] (c ∷ cs) = ⊥
AllStarted (h ∷ hosts) [] = ⊥
AllStarted (h ∷ hosts) (c ∷ cs) = IsStarted h c × AllStarted hosts cs

-- A client with a socket that has sent nothing.
record IsBlank (fd : ℤ) (c : TcpClient) : Type 0 where
  sent : c.send_byte ≡ 0
  stream : c.wire.stream ≡ []
  fresh : c.first_sent ≡ false
  socket : c.sockfd ≡ fd
  idle : c.asyconnect ≡ false

bind-IsBlank :
    (fd : ℤ) (valid_ip : Bool) (c : TcpClient)
    → IsBlank c.sockfd c
    → IsBlank fd (bind fd valid_ip c)
unfolding bind set_congestion_algo
bind-IsBlank fd valid_ip c v = elim (Bool-cases (is_negative fd)) [
  | inl bad ↦
      rw bad
        (record { sent = v.sent; stream = v.stream; fresh = v.fresh; socket = refl; idle = v.idle })
  | inr good ↦ elim (Bool-cases valid_ip) [
    | inl yes_ ↦
        rw (good, yes_)
          (record {
            sent = v.sent;
            stream = v.stream;
            fresh = v.fresh;
            socket = refl;
            idle = v.idle;
          })
    | inr no_ ↦
        rw (good, no_)
          (record {
            sent = v.sent;
            stream = v.stream;
            fresh = v.fresh;
            socket = refl;
            idle = v.idle;
          })
  ]
]

-- A client that is ready to send.
record IsReadied (fd : ℤ) (c : TcpClient) : Type 0 where
  sending : IsSending c
  total : c.total_byte ≡ total_send
  fresh : c.first_sent ≡ false
  socket : c.sockfd ≡ fd
  idle : c.asyconnect ≡ false

set_sender_info-IsReadied :
    (id : ℕ) (fd : ℤ) (c : TcpClient)
    → IsBlank fd c
    → IsReadied fd (set_sender_info id total_send c)
unfolding set_sender_info
set_sender_info-IsReadied id fd c v = record {
  sending = record {
    total_low = omega arith;
    total_high = omega arith;
    within = omega (arith, v.sent);
    before = λ e. (v.sent, v.stream);
    after = λ e. (cc v.fresh);
  };
  total = refl;
  fresh = v.fresh;
  socket = v.socket;
  idle = v.idle;
}

asyn_connect-IsStarted :
    (h : Host) (c : TcpClient)
    → IsReadied h.fd c
    → IsStarted h (asyn_connect c) × ((asyn_connect c).client_id ≡ c.client_id)
unfolding asyn_connect
asyn_connect-IsStarted h c v = elim (Bool-cases (is_positive c.sockfd)) [
  | inl open_ ↦ rw open_ (
    record {
      sending = record {
        total_low = v.sending.total_low;
        total_high = v.sending.total_high;
        within = v.sending.within;
        before = v.sending.before;
        after = v.sending.after;
      };
      total = v.total;
      fresh = v.fresh;
      socket = v.socket;
      connecting = sym open_ ∙ ap is_positive v.socket;
      thread = λ e. (c.effects, refl);
    },
    refl,
  )
  | inr closed ↦ rw closed (
    record {
      sending = v.sending;
      total = v.total;
      fresh = v.fresh;
      socket = v.socket;
      connecting = v.idle ∙ sym closed ∙ ap is_positive v.socket;
      thread = λ e. absurd (cc (e, closed, v.socket));
    },
    refl,
  )
]

pub start_client-IsStarted :
    (cc : List ℕ) (id : ℕ) (h : Host)
    → IsStarted h (start_client cc id h) × ((start_client cc id h).client_id ≡ id)
unfolding start_client
start_client-IsStarted cc id h =
    let blank : IsBlank (new_client true cc h.answers).sockfd (new_client true cc h.answers) =
      unfold new_client in
      record { sent = refl; stream = refl; fresh = refl; socket = refl; idle = refl } in
    let c = bind h.fd h.valid_ip (new_client true cc h.answers) in
    let named : (set_sender_info id total_send c).client_id ≡ id = unfold set_sender_info in refl in
    let (v, e) =
      asyn_connect-IsStarted h (set_sender_info id total_send c)
        (set_sender_info-IsReadied id h.fd c (bind-IsBlank h.fd h.valid_ip _ blank)) in
    (v, e ∙ named)

-- There is one client for each host, in their order, numbered from the given number on. Each has the
-- socket that was made for it, the program's total, and counters and a wire on which nothing was
-- sent. Where the socket is positive, the client is marked as connecting, and the last thing it did is
-- to start the thread that connects; otherwise it is not marked.
pub start_clients-IsStarted :
    (cc : List ℕ) (id : ℕ) (hosts : List Host)
    → AllStarted hosts (start_clients cc id hosts)
      × (map TcpClient.client_id (start_clients cc id hosts) ≡ count_from id (length hosts))
unfolding start_clients
start_clients-IsStarted cc id [] = (tt, refl)
start_clients-IsStarted cc id (h ∷ hosts) =
    let (a, e) = start_client-IsStarted cc id h in
    let (rest, ids) = start_clients-IsStarted cc (suc id) hosts in ((a, rest), ap₂ ◌∷◌ e ids)
