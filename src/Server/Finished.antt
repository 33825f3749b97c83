-- ===== src/Server/Finished.antt =====
-- The counter of active clients of a server of tcp/tcp_server.cc counts the peers that have finished.
use tcp_congestion_mininet.Common.{
  ℕ, suc, ◌+◌, ◌≡◌, refl, ap, sym, subst, ◌∙◌, arith, Bool, true, false, some, List, [], ltb,
  if◌then◌else◌, if-elim, update, inl, inr,
}
use tcp_congestion_mininet.Common.Int.{pos, negsuc}
use tcp_congestion_mininet.Socket.{ok, Yields, Stop}
use tcp_congestion_mininet.Peer.{TcpPeer, notifi_read}
use tcp_congestion_mininet.Peer.Counting.{done_count}
use tcp_congestion_mininet.Peer.Telling.{Tells, notifi_read-Tells}
use tcp_congestion_mininet.Server
use tcp_congestion_mininet.Server.{
  TcpServer, new_server, find, insert, accept, on_peer_read_done_msg, on_trace_data,
  delete_peer_list, delete_peer_timer, close,
}
use tcp_congestion_mininet.Server.Peers
use tcp_congestion_mininet.Server.Peers.{
  one_if, held, owners, IsOwned, held-erase, accept-IsOwned, handle-IsOwned,
}
use tcp_congestion_mininet.Server.Hosted.{
  Hosted, apply_effects, accepted_peer, Step, accept_fails, accepts, reads, deletes, stops, Reach,
  starts, later,
}
use tcp_congestion_mininet.Server.Calls.{apply_effects-Applied}
use tcp_congestion_mininet.Server.Made.{
  finished, finished-beyond, finished-update, found-made, accepted_peer-fresh, accept-Made,
}

-- The server has called Decrease as often as its peers have finished.
pub record IsCounted (h : Hosted) : Type 0 where
  pub owned : IsOwned h.server
  pub counter : h.server.has_counter ≡ true
  pub decreased : h.server.decreased ≡ finished h.server.next_peer h.peer

accept-IsCounted :
    (fd : ℕ) (q : TcpPeer) (h : Hosted)
    → q.send_read_done ≡ false
    → IsCounted h
    → IsCounted
        (record h { server = accept (pos fd) h.server; peer = update h.peer h.server.next_peer q })
accept-IsCounted fd q h fresh v =
    let m = accept-Made (pos fd) h.server in
    let n = h.server.next_peer in
    let same = finished-beyond n n h.peer q (omega arith) in
    record {
      owned = accept-IsOwned (pos fd) h.server v.owned;
      counter = m.counter ∙ v.counter;
      decreased = elim m.peers [
        | inl e ↦
            omega
              (arith, m.decreased, v.decreased, same, ap (λ k. finished k (update h.peer n q)) e)
        | inr e ↦ omega (
          arith,
          m.decreased,
          v.decreased,
          same,
          ap (λ k. finished k (update h.peer n q)) e,
          finished-update (suc n) n h.peer q (omega arith),
          ap one_if fresh,
          last_one n h.peer,
        )
      ];
    }
  where
    last_one :
        (n : ℕ) (peer : ℕ → TcpPeer)
        → finished (suc n) peer ≡ finished n peer + one_if (peer n).send_read_done
    last_one n peer = refl

reads-IsCounted :
    (fd number now first second : ℕ) (lines : List (List ℕ)) (errno : Bool) (last : Stop)
    (h : Hosted) (q : TcpPeer)
    → find fd h.server.peers ≡ some number
    → notifi_read now first second lines errno last (record (h.peer number) { effects = [] }) ≡ ok q
    → IsCounted h
    → IsCounted
        (record h { server = apply_effects q.effects h.server; peer = update h.peer number q })
reads-IsCounted fd number now first second lines errno last h q found ran v =
    let a = apply_effects-Applied q.effects h.server v.counter v.owned in
    let p : TcpPeer = record (h.peer number) { effects = [] } in
    let t : Tells p q =
      subst (Yields (Unit {0}) (Tells p)) ran
        (notifi_read-Tells now first second lines errno last p) in
    record {
      owned = a.owned;
      counter = a.counter;
      decreased =
          a.counted
          ∙ balance (h.peer number).send_read_done q.send_read_done t.still t.once (
              finished-update h.server.next_peer number h.peer q
                (found-made fd number h.server v.owned found))
          ∙ sym (ap (λ k. finished k (update h.peer number q)) a.peers);
    }
  where
    balance :
        (before after : Bool)
        → (before ≡ true → after ≡ true)
        → done_count q.effects ≡ 0 + (if before then 0 else if after then 1 else 0)
        → finished h.server.next_peer (update h.peer number q) + one_if before
          ≡ finished h.server.next_peer h.peer + one_if after
        → h.server.decreased + done_count q.effects
          ≡ finished h.server.next_peer (update h.peer number q)
    balance true true still once e = omega (arith, once, e, v.decreased)
    balance true false still once e = absurd (cc (still refl))
    balance false true still once e = omega (arith, once, e, v.decreased)
    balance false false still once e = omega (arith, once, e, v.decreased)

pub Step-IsCounted : {h k : Hosted} → Step h k → IsCounted h → IsCounted k
unfolding delete_peer_timer delete_peer_list close accept
Step-IsCounted {h} (accept_fails e) v = record {
  owned = accept-IsOwned (negsuc e) h.server v.owned;
  counter = v.counter;
  decreased = v.decreased;
}
Step-IsCounted {h} (accepts fd registers answers) v =
    accept-IsCounted fd (accepted_peer fd registers answers) h
      (accepted_peer-fresh fd registers answers) v
Step-IsCounted {h} (reads fd number now first second lines errno last {q = q} found ran) v =
    reads-IsCounted fd number now first second lines errno last h q found ran v
Step-IsCounted {h} deletes v = record {
  owned = handle-IsOwned Server.Peers.delete_timer h.server v.owned;
  counter = v.counter;
  decreased = v.decreased;
}
Step-IsCounted {h} stops v =
    if-elim (λ s. IsCounted (record h { server = s })) (ltb 0 h.server.listenfd)
      (λ _. record {
        owned = record { once = v.owned.once };
        counter = v.counter;
        decreased = v.decreased;
      })
      (λ _. v)

start-IsCounted :
    (opens : Bool) (peer : ℕ → TcpPeer)
    → IsCounted (record { server = Server.register_counter (new_server opens); peer = peer })
unfolding new_server
start-IsCounted opens peer = record {
  owned = record { once = λ p. ground arith };
  counter = refl;
  decreased = refl;
}

-- In every state that a server with a counter and its peers comes to, whatever the order of the
-- accepted connections, the reads of the peers, their closing and their deletion: each peer is
-- owned once or was destroyed once, and Decrease was called as often as there are peers that have
-- reported the end of their message.
pub Reach-IsCounted : {h : Hosted} → Reach h → IsCounted h
Reach-IsCounted (starts opens peer) = start-IsCounted opens peer
Reach-IsCounted (later r step) = Step-IsCounted step (Reach-IsCounted r)
