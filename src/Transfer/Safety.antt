-- ===== src/Transfer/Safety.antt =====
-- What the counter of active clients says of the transfer of tcp/tcp_client.cc and tcp/tcp_peer.cc.
use tcp_congestion_mininet.Common.{
  ℕ, zero, suc, ◌-◌, ◌≤◌, ◌<◌, ◌≡◌, refl, ap, ap₂, ◌∙◌, arith, Bool, true, false, List, [], ◌∷◌,
  ◌++◌, if◌then◌else◌, if-elim, Bool-cases, inl, inr,
}
use tcp_congestion_mininet.Common.Lists.{length, replicate}
use tcp_congestion_mininet.Common.Int.{ℤ, is_negative, is_positive}
use tcp_congestion_mininet.Socket.{Wrote}
use tcp_congestion_mininet.Client.{
  TcpClient, start_thread, new_client, set_sender_info, set_congestion_algo, bind, asyn_connect,
}
use tcp_congestion_mininet.Client.Send.{header_message}
use tcp_congestion_mininet.Client.Progress.{IsSending}
use tcp_congestion_mininet.Client.Finish.{sent_message}
use tcp_congestion_mininet.Client.Kept.{told}
use tcp_congestion_mininet.Client.Quiet.{decreases, decreases-append}
use tcp_congestion_mininet.Client.Deactive.{IsCounted}
use tcp_congestion_mininet.Peer.{TcpPeer, new_peer, set_trace_recv_fun}
use tcp_congestion_mininet.Peer.Counting.{done_count}
use tcp_congestion_mininet.Peer.First.{IsNew}
use tcp_congestion_mininet.Peer.Speaking.{voice, IsSilent}
use tcp_congestion_mininet.Echo.{Host, total_send, start_client}
use tcp_congestion_mininet.Transfer.Receiver.{IsPeer}
use tcp_congestion_mininet.Echo.Start.{start_client-IsStarted}
use tcp_congestion_mininet.Transfer.Invariant.{IsConnection, Reach-IsConnection}
use tcp_congestion_mininet.Transfer.System.{Connection, HasHeader, start, Reach}

-- A client that has sent nothing and told nothing, and a peer that has read and written nothing.
pub record IsStart (id total : ℕ) (s : Connection) : Type 0 where
  pub sending : IsSending s.client
  pub named : s.client.client_id ≡ id
  pub sized : s.client.total_byte ≡ total
  pub told : s.client.deactive_sent ≡ false
  pub calls : decreases s.client.effects ≡ 0
  pub new : IsNew s.peer
  pub unanswered : s.peer.wire.stream ≡ []
  pub undelivered : s.delivered ≡ 0
  pub unheard : s.heard ≡ 0

pub IsStart-IsConnection :
    (id total : ℕ) (s : Connection) → IsStart id total s → IsConnection id total s
IsStart-IsConnection id total s v = record {
  client = record {
    sending = v.sending;
    named = v.named;
    sized = v.sized;
    behind = omega (arith, v.undelivered);
    counted = record { yet = λ e. v.calls; told = λ e. cc (v.told) };
    told = λ e. cc (v.told);
  };
  peer = record {
    fresh = λ e. v.new;
    reading = λ h. absurd (omega (arith, v.undelivered));
    silent = λ e. v.unanswered;
  };
  heard = omega (arith, v.unheard);
}

-- What is so at the end.
pub record IsComplete (id total : ℕ) (s : Connection) : Type 0 where
  pub called_once : decreases s.client.effects ≡ 1
  pub sent : s.client.wire.stream ≡ header_message id total ++ replicate (total - 1400) 0
  pub delivered : s.delivered ≡ total
  pub counted : s.peer.recv_byte ≡ total
  pub told_once : done_count s.peer.effects ≡ 1

-- A counter that heard of the client.
deactive : (c : TcpClient) → IsCounted c → 0 < decreases c.effects → c.deactive_sent ≡ true
deactive c v h = elim (Bool-cases c.deactive_sent) [
  | inl t ↦ t
  | inr f ↦ absurd (omega (arith, v.yet f))
]

pub at_most_once : (c : TcpClient) → IsCounted c → c.deactive_sent ≡ true → decreases c.effects ≤ 1
at_most_once c v t = go c.has_counter (v.told t)
  where
    go : (b : Bool) → decreases c.effects ≡ (if b then 1 else 0) → decreases c.effects ≤ 1
    go true e = omega arith
    go false e = omega arith

-- A peer that has written something has told the server.
has_told : (p : TcpPeer) → IsSilent (voice p) → 0 < length p.wire.stream → p.send_read_done ≡ true
has_told p v h = elim (Bool-cases p.send_read_done) [
  | inl t ↦ t
  | inr f ↦ absurd (omega (arith, ap length (v f)))
]

some_delivered :
    (id total n : ℕ) (p : TcpPeer) → IsPeer id total n p → p.send_read_done ≡ true → 0 < n
some_delivered id total zero p v t = absurd (cc ((v.fresh refl).done))
some_delivered id total (suc n) p v t = omega arith

pub IsConnection-IsComplete :
    (id total : ℕ) (s : Connection)
    → IsConnection id total s
    → 0 < decreases s.client.effects
    → IsComplete id total s
IsConnection-IsComplete id total s v h =
    let c = v.client in
    let d = deactive s.client c.counted h in
    let t = has_told s.peer v.peer.silent (omega (arith, c.told d, v.heard)) in
    let (f, named, sized, n, settled) =
      v.peer.reading (some_delivered id total s.delivered s.peer v.peer t) in
    let all : total ≤ s.delivered = ground (arith, settled.done, t, sized, n) in
    let sent : s.client.send_byte ≡ s.client.total_byte =
      omega (arith, all, c.behind, c.sending.within, c.sized) in
    record {
      called_once = omega (arith, h, at_most_once s.client c.counted d);
      sent =
          sent_message s.client c.sending sent
          ∙ ap₂ (λ i k. header_message i k ++ replicate (k - 1400) (let z : ℕ = 0 in z)) c.named
              c.sized;
      delivered = omega (arith, all, c.behind, sent, c.sized);
      counted = omega (arith, all, n, c.behind, sent, c.sized);
      told_once = settled.told ∙ ap (λ b. if b then 1 else 0) t;
    }

-- Whatever the order of the events of a connection that starts with nothing sent, for a client
-- number below 2 ^ 32, where the first read that brings bytes brings the header's eight, and also
-- where either side has closed: once Decrease was called for the client, it was called once, the
-- client has sent its whole message, the peer has read and counted all of it, and the server was
-- told once.
pub Reach-IsComplete :
    (id total : ℕ) {s t : Connection}
    → id < 0x100000000
    → IsStart id total s
    → Reach HasHeader s t
    → 0 < decreases t.client.effects
    → IsComplete id total t
Reach-IsComplete id total {s = s} {t = t} hid v r h =
    IsConnection-IsComplete id total t
      (Reach-IsConnection id total hid r (IsStart-IsConnection id total s v)) h

-- What a client of echo_client.cc knows of the counter before its connection is up.
abbrev Unheard : TcpClient → Type 0
Unheard c = (c.deactive_sent ≡ false) × (decreases c.effects ≡ 0)

bind-Unheard : (fd : ℤ) (valid_ip : Bool) (c : TcpClient) → Unheard c → Unheard (bind fd valid_ip c)
unfolding bind set_congestion_algo
bind-Unheard fd valid_ip c (t, n) =
    if-elim Unheard (is_negative fd) (λ _. (t, n))
      (λ _.
        if-elim Unheard valid_ip (λ _. (t, omega (arith, decreases-append c.effects _, n)))
          (λ _. (t, n)))

asyn_connect-Unheard : (c : TcpClient) → Unheard c → Unheard (asyn_connect c)
unfolding asyn_connect
asyn_connect-Unheard c (t, n) =
    if-elim Unheard (is_positive c.sockfd)
      (λ _. (t, omega (arith, decreases-append c.effects (start_thread ∷ []), n))) (λ _. (t, n))

start_client-Unheard : (cc : List ℕ) (id : ℕ) (h : Host) → Unheard (start_client cc id h)
unfolding start_client new_client set_sender_info
start_client-Unheard cc id h =
    let (t, n) = bind-Unheard h.fd h.valid_ip (new_client true cc h.answers) (refl, refl) in
    asyn_connect-Unheard
      (set_sender_info id total_send (bind h.fd h.valid_ip (new_client true cc h.answers))) (t, n)

-- A client of echo_client.cc and a peer that has just been accepted start so.
pub start-IsStart :
    (cc : List ℕ) (id : ℕ) (h : Host) (fd : ℤ) (answers : List Wrote)
    → IsStart id total_send (start cc id h fd answers)
unfolding start set_trace_recv_fun new_peer
start-IsStart cc id h fd answers =
    let (v, named) = start_client-IsStarted cc id h in
    let (told, calls) = start_client-Unheard cc id h in
    record {
      sending = v.sending;
      named = named;
      sized = v.total;
      told = told;
      calls = calls;
      new = record { first = refl; recv = refl; done = refl; told = refl };
      unanswered = refl;
      undelivered = refl;
      unheard = refl;
    }
