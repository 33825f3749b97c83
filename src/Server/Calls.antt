-- ===== src/Server/Calls.antt =====
-- What the calls of a peer in its server of tcp/tcp_server.cc change there.
use tcp_congestion_mininet.Common.{
  ℕ, suc, ◌+◌, ◌≡◌, refl, ap, ◌∙◌, arith, Bool, true, Option, none, some, List, [], ◌∷◌, ◌++◌,
  if-elim,
}
use tcp_congestion_mininet.Common.Int.{pos, negsuc}
use tcp_congestion_mininet.Trace.{TcpTrace, on_recv_data}
use tcp_congestion_mininet.Peer
use tcp_congestion_mininet.Peer.{
  TcpPeer, Effect, trace, peer_close, close_fd, set_send_buf, set_recv_buf, on_peer_read_done,
  new_peer, set_trace_recv_fun, notifi_read,
}
use tcp_congestion_mininet.Peer.Counting.{done_count}
use tcp_congestion_mininet.Server
use tcp_congestion_mininet.Server.{
  TcpServer, new_server, find, insert, accept, on_peer_read_done_msg, on_trace_data,
  delete_peer_list, delete_peer_timer, close,
}
use tcp_congestion_mininet.Server.Peers
use tcp_congestion_mininet.Server.Peers.{
  one_if, held, owners, IsOwned, held-erase, accept-IsOwned, handle-IsOwned,
}
use tcp_congestion_mininet.Server.Hosted.{apply_effect, apply_effects}

-- What a server counts by: its calls of Decrease, its counter, and the peers it made.
abbrev pub tally : TcpServer → ℕ × Bool × ℕ
tally s = (s.decreased, s.has_counter, s.next_peer)

on_trace_data-tally : (id ts len : ℕ) (s : TcpServer) → tally (on_trace_data id ts len s) ≡ tally s
unfolding on_trace_data
on_trace_data-tally id ts len s = go s.tracer
  where
    go :
        (t : Option TcpTrace)
        → tally
            (elim t [ none ↦ s | some x ↦ record s { tracer = some (on_recv_data id ts len x) } ])
          ≡ tally s
    go none = refl
    go (some x) = refl

peer_close-tally : (fd : ℕ) (s : TcpServer) → tally (Server.peer_close fd s) ≡ tally s
unfolding Server.peer_close
peer_close-tally fd s = go (find fd s.peers)
  where
    go :
        (r : Option ℕ)
        → tally (elim r [
          | none ↦ s
          | some p ↦ record s {
            wait_for_delete = s.wait_for_delete ++ p ∷ [];
            peers = Server.erase fd s.peers;
            timers = suc s.timers;
          }
        ])
          ≡ tally s
    go none = refl
    go (some p) = refl

-- A server with a counter after the calls of a peer.
pub record Applied (n : ℕ) (s t : TcpServer) : Type 0 where
  pub counted : t.decreased ≡ s.decreased + n
  pub counter : t.has_counter ≡ true
  pub peers : t.next_peer ≡ s.next_peer
  pub owned : IsOwned t

kept : (s t : TcpServer) → s.has_counter ≡ true → IsOwned t → tally t ≡ tally s → Applied 0 s t
kept s t c v e = record {
  counted = omega (arith, ap (λ x. x.0) e);
  counter = ap (λ x. x.1) e ∙ c;
  peers = ap (λ x. x.2) e;
  owned = v;
}

apply_effect-Applied :
    (e : Effect) (s : TcpServer)
    → s.has_counter ≡ true
    → IsOwned s
    → Applied (done_count (e ∷ [])) s (apply_effect e s)
unfolding apply_effect on_peer_read_done_msg
apply_effect-Applied (trace id ts len) s c v =
    kept s _ c (handle-IsOwned (Server.Peers.trace id ts len) s v) (on_trace_data-tally id ts len s)
apply_effect-Applied (peer_close (pos fd)) s c v =
    kept s _ c (handle-IsOwned (Server.Peers.closes fd) s v) (peer_close-tally fd s)
apply_effect-Applied (peer_close (negsuc fd)) s c v = kept s s c v refl
apply_effect-Applied on_peer_read_done s c v =
    if-elim (Applied 1 s) s.has_counter
      (λ _. record {
        counted = omega arith;
        counter = c;
        peers = refl;
        owned = record { once = v.once };
      })
      (λ f. absurd (cc))
apply_effect-Applied (close_fd fd) s c v = kept s s c v refl
apply_effect-Applied (set_send_buf n) s c v = kept s s c v refl
apply_effect-Applied (set_recv_buf n) s c v = kept s s c v refl

done_count-cons :
    (e : Effect) (es : List Effect) → done_count (e ∷ es) ≡ done_count (e ∷ []) + done_count es
done_count-cons e es = Peer.Counting.done_count-append (e ∷ []) es

pub apply_effects-Applied :
    (es : List Effect) (s : TcpServer)
    → s.has_counter ≡ true
    → IsOwned s
    → Applied (done_count es) s (apply_effects es s)
unfolding apply_effects
apply_effects-Applied [] s c v = kept s s c v refl
apply_effects-Applied (e ∷ es) s c v =
    let a = apply_effect-Applied e s c v in
    let b = apply_effects-Applied es (apply_effect e s) a.counter a.owned in
    record {
      counted = omega (arith, a.counted, b.counted, done_count-cons e es);
      counter = b.counter;
      peers = b.peers ∙ a.peers;
      owned = b.owned;
    }
