-- ===== src/Peer/Counting.antt =====
-- What the steps of a peer in tcp/tcp_peer.cc leave alone, and how often they tell the server.
use tcp_congestion_mininet.Common.{
  ℕ, suc, ◌+◌, ◌≡◌, refl, arith, List, [], ◌∷◌, ◌++◌, leb, Bool-cases, inl, inr,
}
use tcp_congestion_mininet.Common.Int.{is_positive}
use tcp_congestion_mininet.Socket.{Outcome, ok, aborted, Wrote, accepts, would_block, breaks}
use tcp_congestion_mininet.Peer.{
  Effect, trace, peer_close, close_fd, set_send_buf, set_recv_buf, on_peer_read_done, TcpPeer,
  report_recv_length, answer_write, write_message, send_done_signal, log_progress,
}

-- How often the server was told that the peer has read everything.
abbrev pub done_count : List Effect → ℕ
done_count [] = 0
done_count (on_peer_read_done ∷ es) = suc (done_count es)
done_count (trace a b c ∷ es) = done_count es
done_count (peer_close fd ∷ es) = done_count es
done_count (close_fd fd ∷ es) = done_count es
done_count (set_send_buf n ∷ es) = done_count es
done_count (set_recv_buf n ∷ es) = done_count es

pub done_count-append :
    (xs ys : List Effect) → done_count (xs ++ ys) ≡ done_count xs + done_count ys
done_count-append [] ys = omega arith
done_count-append (on_peer_read_done ∷ es) ys = omega (arith, done_count-append es ys)
done_count-append (trace a b c ∷ es) ys = done_count-append es ys
done_count-append (peer_close fd ∷ es) ys = done_count-append es ys
done_count-append (close_fd fd ∷ es) ys = done_count-append es ys
done_count-append (set_send_buf n ∷ es) ys = done_count-append es ys
done_count-append (set_recv_buf n ∷ es) ys = done_count-append es ys

-- `q` counts as `p` does.
pub record Alike (p q : TcpPeer) : Type 0 where
  pub first : q.first_packet ≡ p.first_packet
  pub id : q.client_id ≡ p.client_id
  pub total : q.total_byte ≡ p.total_byte
  pub recv : q.recv_byte ≡ p.recv_byte
  pub done : q.send_read_done ≡ p.send_read_done
  pub told : done_count q.effects ≡ done_count p.effects

pub report-Alike : (now : ℕ) (p : TcpPeer) → Alike p (report_recv_length now p)
unfolding report_recv_length
report-Alike now p = elim (Bool-cases p.has_trace) [
  | inl t ↦ simp t (record {
    first = refl;
    id = refl;
    total = refl;
    recv = refl;
    done = refl;
    told = omega (arith, done_count-append p.effects (trace p.client_id now p.recv_byte ∷ []));
  })
  | inr t ↦
      simp t
        (record { first = refl; id = refl; total = refl; recv = refl; done = refl; told = refl })
]

pub log_progress-Alike : (now : ℕ) (p : TcpPeer) → Alike p (log_progress now p)
unfolding log_progress
log_progress-Alike now p =
    let a = report-Alike now p in
    elim (Bool-cases (leb p.next_time_print_log now)) [
      | inl t ↦ rw t (record {
        first = a.first;
        id = a.id;
        total = a.total;
        recv = a.recv;
        done = a.done;
        told = a.told;
      })
      | inr t ↦
          rw t (record {
            first = refl;
            id = refl;
            total = refl;
            recv = refl;
            done = refl;
            told = refl;
          })
    ]

-- A write to the socket aborts or changes the wire alone.
abbrev pub MaybeAlike : TcpPeer → Outcome TcpPeer → Type 0
MaybeAlike p aborted = Unit {0}
MaybeAlike p (ok q) = Alike p q

pub answer_write-Alike :
    (msg : List ℕ) (p : TcpPeer) (l : List Wrote) → MaybeAlike p (answer_write msg p l)
unfolding answer_write
answer_write-Alike msg p [] = record {
  first = refl;
  id = refl;
  total = refl;
  recv = refl;
  done = refl;
  told = refl;
}
answer_write-Alike msg p (accepts k ∷ l) = record {
  first = refl;
  id = refl;
  total = refl;
  recv = refl;
  done = refl;
  told = refl;
}
answer_write-Alike msg p (would_block ∷ l) = record {
  first = refl;
  id = refl;
  total = refl;
  recv = refl;
  done = refl;
  told = refl;
}
answer_write-Alike msg p (breaks ∷ l) = tt

pub send_done_signal-Alike : (p : TcpPeer) → MaybeAlike p (send_done_signal p)
unfolding send_done_signal write_message
send_done_signal-Alike p = elim (Bool-cases (is_positive p.sockfd)) [
  | inl open_ ↦ rw open_ (answer_write-Alike _ p p.wire.answers)
  | inr closed ↦
      rw closed
        (record { first = refl; id = refl; total = refl; recv = refl; done = refl; told = refl })
]
