-- ===== src/Server/Made.antt =====
-- The peers that a server of tcp/tcp_server.cc makes, and how many of them have finished.
use tcp_congestion_mininet.Common.{
  ℕ, zero, suc, ◌+◌, ◌≤◌, ◌<◌, ◌≡◌, refl, ap, arith, Bool, true, false, Option, none, some, List,
  [], ◌∷◌, ◌++◌, ltb, ◌==◌, if-elim, update, Bool-cases, inl, inr, ◌⊎◌,
}
use tcp_congestion_mininet.Common.Int.{ℤ, pos, negsuc, is_positive}
use tcp_congestion_mininet.Socket.{Wrote}
use tcp_congestion_mininet.Peer
use tcp_congestion_mininet.Peer.{
  TcpPeer, Effect, trace, peer_close, close_fd, set_send_buf, set_recv_buf, on_peer_read_done,
  new_peer, set_trace_recv_fun, notifi_read,
}
use tcp_congestion_mininet.Server.{TcpServer, find, insert, accept}
use tcp_congestion_mininet.Server.Peers.{one_if, IsOwned, held-erase}
use tcp_congestion_mininet.Server.Hosted.{accepted_peer}

-- How many of the first `n` peers have told the server that they have read everything.
abbrev pub finished : ℕ → (ℕ → TcpPeer) → ℕ
finished zero peer = 0
finished (suc n) peer = finished n peer + one_if (peer n).send_read_done

pub finished-beyond :
    (n m : ℕ) (peer : ℕ → TcpPeer) (q : TcpPeer)
    → n ≤ m
    → finished n (update peer m q) ≡ finished n peer
finished-beyond zero m peer q h = refl
finished-beyond (suc n) m peer q h = ground (arith, finished-beyond n m peer q)

pub finished-update :
    (n m : ℕ) (peer : ℕ → TcpPeer) (q : TcpPeer)
    → m < n
    → finished n (update peer m q) + one_if (peer m).send_read_done
      ≡ finished n peer + one_if q.send_read_done
finished-update zero m peer q h = absurd (omega arith)
finished-update (suc n) m peer q h =
    if-elim
      (λ (x : TcpPeer).
        finished n (update peer m q) + one_if x.send_read_done + one_if (peer m).send_read_done
        ≡ finished n peer + one_if (peer n).send_read_done + one_if q.send_read_done)
      (n == m)
      (λ here.
        let e : n ≡ m = ground (arith, here) in
        omega (
          arith,
          finished-beyond n m peer q (omega (arith, e)),
          ap (λ i. one_if (peer i).send_read_done) e,
        ))
      (λ elsewhere. omega (arith, finished-update n m peer q (ground (arith, elsewhere, h))))

-- A peer in the map was made.
pub found-made : (fd p : ℕ) (s : TcpServer) → IsOwned s → find fd s.peers ≡ some p → p < s.next_peer
found-made fd p s v e = elim (Bool-cases (ltb p s.next_peer)) [
  | inl made ↦ ground (arith, made)
  | inr not_made ↦
      absurd (
        omega
          (arith, v.once p, ap one_if not_made, held-erase p fd p s.peers e, ap one_if (self p)))
]
  where
    self : (p : ℕ) → (p == p) ≡ true
    self p = ground arith

pub accepted_peer-fresh :
    (fd : ℕ) (registers : Bool) (answers : List Wrote)
    → (accepted_peer fd registers answers).send_read_done ≡ false
unfolding accepted_peer set_trace_recv_fun new_peer Peer.close
accepted_peer-fresh fd true answers = refl
accepted_peer-fresh fd false answers =
    if-elim (λ (q : TcpPeer). q.send_read_done ≡ false) (is_positive (pos fd)) (λ _. refl)
      (λ _. refl)

-- Accept makes one peer or none.
pub record Made (s t : TcpServer) : Type 0 where
  pub decreased : t.decreased ≡ s.decreased
  pub counter : t.has_counter ≡ s.has_counter
  pub peers : (t.next_peer ≡ s.next_peer) ⊎ (t.next_peer ≡ suc s.next_peer)

pub accept-Made : (answer : ℤ) (s : TcpServer) → Made s (accept answer s)
unfolding accept
accept-Made (negsuc e) s = record { decreased = refl; counter = refl; peers = inl refl }
accept-Made (pos fd) s =
    if-elim (Made s) (ltb 1024 fd)
      (λ _. record { decreased = refl; counter = refl; peers = inl refl })
      (λ _. go (find fd s.peers))
  where
    go :
        (r : Option ℕ)
        → Made s (elim r [
          | none ↦ record s { peers = insert fd s.next_peer s.peers; next_peer = suc s.next_peer }
          | some q ↦ record s {
            deleted = s.deleted ++ s.next_peer ∷ [];
            next_peer = suc s.next_peer;
          }
        ])
    go none = record { decreased = refl; counter = refl; peers = inr refl }
    go (some q) = record { decreased = refl; counter = refl; peers = inr refl }
