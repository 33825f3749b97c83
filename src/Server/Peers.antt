-- ===== src/Server/Peers.antt =====
-- Every peer of tcp/tcp_server.cc is owned once: by the map, by the list of those to delete, or by
-- nobody any more.
use tcp_congestion_mininet.Common.{
  ℕ, suc, ◌+◌, ◌≡◌, refl, ap, sym, arith, Bool, true, false, Option, none, some, List, [], ◌∷◌,
  ◌++◌, ltb, ◌==◌, if◌then◌else◌, if-elim,
}
use tcp_congestion_mininet.Trace.{TcpTrace, on_recv_data}
use mathlib.Core.Option.{some-injective}
use tcp_congestion_mininet.Common.Int.{ℤ, pos, negsuc}
use tcp_congestion_mininet.Server.{
  TcpServer, new_server, find, insert, erase, accept, peer_close, on_peer_read_done_msg,
  delete_peer_list, delete_peer_timer, close, on_trace_data,
}

abbrev pub one_if : Bool → ℕ
one_if true = 1
one_if false = 0

-- How often the map holds a peer, and how often a list does.
abbrev pub held : ℕ → List (ℕ × ℕ) → ℕ
held p [] = 0
held p ((fd, q) ∷ m) = one_if (p == q) + held p m

abbrev pub times : ℕ → List ℕ → ℕ
times p [] = 0
times p (q ∷ qs) = one_if (p == q) + times p qs

times-append : (p : ℕ) (qs rs : List ℕ) → times p (qs ++ rs) ≡ times p qs + times p rs
times-append p [] rs = omega arith
times-append p (q ∷ qs) rs = omega (arith, times-append p qs rs)

-- The owners of a peer, and those that were.
abbrev pub owners : ℕ → TcpServer → ℕ
owners p s = held p s.peers + times p s.wait_for_delete + times p s.deleted

-- Every peer that was constructed has one owner, or was destroyed once; no other peer has any.
pub record IsOwned (s : TcpServer) : Type 0 where
  pub once : (p : ℕ) → owners p s ≡ one_if (ltb p s.next_peer)

held-insert :
    (p fd q : ℕ) (m : List (ℕ × ℕ))
    → find fd m ≡ none
    → held p (insert fd q m) ≡ one_if (p == q) + held p m
unfolding find insert
held-insert p fd q [] e = refl
held-insert p fd q ((k, r) ∷ m) e = go (held-insert p fd q m) (k == fd) e
  where
    go :
        (find fd m ≡ none → held p (insert fd q m) ≡ one_if (p == q) + held p m)
        → (b : Bool) → (if b then some r else find fd m) ≡ none
        → held p (if b then (k, r) ∷ m else (k, r) ∷ insert fd q m)
          ≡ one_if (p == q) + (one_if (p == r) + held p m)
    go ih true f = absurd (grind arith)
    go ih false f = omega (arith, ih f)

pub held-erase :
    (p fd q : ℕ) (m : List (ℕ × ℕ))
    → find fd m ≡ some q
    → one_if (p == q) + held p (erase fd m) ≡ held p m
unfolding find erase
held-erase p fd q [] e = absurd (grind arith)
held-erase p fd q ((k, r) ∷ m) e = go (held-erase p fd q m) (k == fd) e
  where
    go :
        (find fd m ≡ some q → one_if (p == q) + held p (erase fd m) ≡ held p m)
        → (b : Bool) → (if b then some r else find fd m) ≡ some q
        → one_if (p == q) + held p (if b then m else (k, r) ∷ erase fd m)
          ≡ one_if (p == r) + held p m
    go ih true f = ap (λ x. one_if (p == x) + held p m) (sym (some-injective r q f))
    go ih false f = omega (arith, ih f)

-- A number more, counted once, is one of the numbers below its successor.
one_more : (p n : ℕ) → one_if (ltb p n) + one_if (p == n) ≡ one_if (ltb p (suc n))
one_more p n = ground arith

pub accept-IsOwned : (answer : ℤ) (s : TcpServer) → IsOwned s → IsOwned (accept answer s)
unfolding accept
accept-IsOwned (negsuc e) s v = v
accept-IsOwned (pos fd) s v =
    if-elim IsOwned (ltb 1024 fd) (λ _. record { once = v.once })
      (λ _. taken (find fd s.peers) refl)
  where
    taken :
        (r : Option ℕ)
        → find fd s.peers ≡ r
        → IsOwned (elim r [
          | none ↦ record s { peers = insert fd s.next_peer s.peers; next_peer = suc s.next_peer }
          | some q ↦ record s {
            deleted = s.deleted ++ s.next_peer ∷ [];
            next_peer = suc s.next_peer;
          }
        ])
    taken none e = record {
      once = λ p.
          omega (arith, held-insert p fd s.next_peer s.peers e, v.once p, one_more p s.next_peer);
    }
    taken (some q) e = record {
      once = λ p.
          omega
            (arith, times-append p s.deleted (s.next_peer ∷ []), v.once p, one_more p s.next_peer);
    }

peer_close-IsOwned : (fd : ℕ) (s : TcpServer) → IsOwned s → IsOwned (peer_close fd s)
unfolding peer_close
peer_close-IsOwned fd s v = moved (find fd s.peers) refl
  where
    moved :
        (r : Option ℕ)
        → find fd s.peers ≡ r
        → IsOwned (elim r [
          | none ↦ s
          | some p ↦ record s {
            wait_for_delete = s.wait_for_delete ++ p ∷ [];
            peers = erase fd s.peers;
            timers = suc s.timers;
          }
        ])
    moved none e = v
    moved (some q) e = record {
      once = λ p.
          omega (
            arith,
            held-erase p fd q s.peers e,
            times-append p s.wait_for_delete (q ∷ []),
            v.once p,
          );
    }

delete_peer_list-IsOwned : (s : TcpServer) → IsOwned s → IsOwned (delete_peer_list s)
unfolding delete_peer_list
delete_peer_list-IsOwned s v = record {
  once = λ p. omega (arith, times-append p s.deleted s.wait_for_delete, v.once p);
}

-- What the event loop and the peers ask of a server.
pub data Event : Type 0 where
  accepts : ℤ → Event
  closes : ℕ → Event
  read_done delete_timer stop : Event
  trace : ℕ → ℕ → ℕ → Event

abbrev pub handle : Event → TcpServer → TcpServer
handle (accepts answer) s = accept answer s
handle (closes fd) s = peer_close fd s
handle read_done s = on_peer_read_done_msg s
handle delete_timer s = (delete_peer_timer s).0
handle stop s = close s
handle (trace id ts len) s = on_trace_data id ts len s

-- The states that a server comes to.
pub data Reachable : TcpServer → Type 0 where
  starts : (opens : Bool) → Reachable (new_server opens)
  then_handles : {s : TcpServer} (e : Event) → Reachable s → Reachable (handle e s)

pub handle-IsOwned : (e : Event) (s : TcpServer) → IsOwned s → IsOwned (handle e s)
unfolding on_peer_read_done_msg delete_peer_timer close on_trace_data
handle-IsOwned (accepts answer) s v = accept-IsOwned answer s v
handle-IsOwned (closes fd) s v = peer_close-IsOwned fd s v
handle-IsOwned read_done s v =
    if-elim IsOwned s.has_counter (λ _. record { once = v.once }) (λ _. v)
handle-IsOwned delete_timer s v = delete_peer_list-IsOwned s v
handle-IsOwned stop s v =
    if-elim IsOwned (ltb 0 s.listenfd) (λ _. record { once = v.once }) (λ _. v)
handle-IsOwned (trace id ts len) s v = traced s.tracer
  where
    traced :
        (t : Option TcpTrace)
        → IsOwned
            (elim t [ none ↦ s | some x ↦ record s { tracer = some (on_recv_data id ts len x) } ])
    traced none = v
    traced (some x) = record { once = v.once }

-- In every state that a server comes to, each peer that it made is owned exactly once, or was
-- destroyed exactly once.
pub Reachable-IsOwned : (s : TcpServer) → Reachable s → IsOwned s
unfolding new_server
Reachable-IsOwned _ (starts opens) = record { once = λ p. ground arith }
Reachable-IsOwned _ (then_handles e r) = handle-IsOwned e _ (Reachable-IsOwned _ r)
