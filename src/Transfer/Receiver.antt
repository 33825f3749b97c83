-- ===== src/Transfer/Receiver.antt =====
-- The peer of tcp/tcp_peer.cc under every event of a connection.
use tcp_congestion_mininet.Common.{
  ℕ, zero, suc, ◌+◌, ◌≤◌, ◌<◌, ◌≡◌, refl, ap, subst, arith, Bool, true, List, [], ◌∷◌, ◌++◌,
  Bool-cases, inl, inr,
}
use tcp_congestion_mininet.Common.Lists.{length, drop, length-append, length-drop}
use tcp_congestion_mininet.Socket.{ok, Yields, Wrote, Stop, errno_after}
use tcp_congestion_mininet.Peer
use tcp_congestion_mininet.Common.{if-elim, false}
use tcp_congestion_mininet.Common.Int.{is_positive}
use tcp_congestion_mininet.Peer.Counting.{done_count-append}
use tcp_congestion_mininet.Client.{TcpClient}
use tcp_congestion_mininet.Client.Progress.{IsSending}
use tcp_congestion_mininet.Peer.{TcpPeer, new_peer, set_trace_recv_fun}
use tcp_congestion_mininet.Peer.First.{IsNew}
use tcp_congestion_mininet.Peer.Reading.{After, After-cong, total_length, notifi_read-After}
use tcp_congestion_mininet.Peer.Speaking.{voice, IsSilent, notifi_read-IsSilent}
use tcp_congestion_mininet.Transfer.{joined, length-joined, stream_length, part_transfer_lem}
use tcp_congestion_mininet.Transfer.System.{HasHeader}

-- The peer's side, for a message of `total` bytes of which it has read `n`.
pub record IsPeer (id total n : ℕ) (p : TcpPeer) : Type 0 where
  pub fresh : n ≡ 0 → IsNew p
  pub reading : 0 < n → After id total n (ok p)
  pub silent : IsSilent (voice p)

ran-IsSilent :
    (now first second : ℕ) (lines : List (List ℕ)) (errno : Bool) (stop : Stop) (p q : TcpPeer)
    → Peer.notifi_read now first second lines errno stop p ≡ ok q
    → IsSilent (voice p)
    → IsSilent (voice q)
ran-IsSilent now first second lines errno stop p q e v =
    subst (Yields (Unit {0}) (λ x. IsSilent (voice x))) e
      (notifi_read-IsSilent now first second lines errno stop p v)

closed-IsNew :
    (p : TcpPeer) → IsNew p → IsNew (Peer.close (Peer.emit (Peer.peer_close p.sockfd ∷ []) p))
unfolding Peer.close
closed-IsNew p v =
    let q : TcpPeer = Peer.emit (Peer.peer_close p.sockfd ∷ []) p in
    let one = done_count-append p.effects (Peer.peer_close p.sockfd ∷ []) in
    let two = done_count-append q.effects (Peer.close_fd p.sockfd ∷ []) in
    if-elim (λ (r : TcpPeer). IsNew (record r { has_trace = false })) (is_positive p.sockfd)
      (λ _. record {
        first = v.first;
        recv = v.recv;
        done = v.done;
        told = omega (arith, one, two, v.told);
      })
      (λ _. record {
        first = v.first;
        recv = v.recv;
        done = v.done;
        told = omega (arith, one, v.told);
      })

-- No read leaves the peer new.
notifi_read-none :
    (now first second : ℕ) (errno : Bool) (stop : Stop) (p q : TcpPeer)
    → Peer.notifi_read now first second [] errno stop p ≡ ok q
    → IsNew p
    → IsNew q
unfolding Peer.notifi_read
notifi_read-none now first second errno stop p q e v =
    subst (Yields (Unit {0}) IsNew) e
      (if-elim (Yields (Unit {0}) IsNew) (errno_after errno stop) (λ _. v) (λ _. closed-IsNew p v))

-- The first bytes of the stream.
first_deliver :
    (c : TcpClient) (now first second : ℕ) (lines : List (List ℕ)) (rest : List ℕ) (errno : Bool)
    (stop : Stop) (p q : TcpPeer)
    → IsSending c
    → c.client_id < 0x100000000
    → HasHeader lines
    → joined lines ++ rest ≡ c.wire.stream
    → Peer.notifi_read now first second lines errno stop p ≡ ok q
    → IsNew p
    → IsSilent (voice p)
    → IsPeer c.client_id c.total_byte (total_length lines) q
first_deliver c now first second [] rest errno stop p q v hid long e ran new silent = record {
  fresh = λ _. notifi_read-none now first second errno stop p q ran new;
  reading = λ h. absurd (omega arith);
  silent = ran-IsSilent now first second [] errno stop p q ran silent;
}
first_deliver c now first second (line ∷ lines) rest errno stop p q v hid long e ran new silent =
    record {
      fresh = λ h. absurd (omega (arith, long));
      reading = λ h. subst (After c.client_id c.total_byte (total_length (line ∷ lines))) ran (
          part_transfer_lem c now first second line lines rest errno stop p v some_sent hid new long
            e);
      silent = ran-IsSilent now first second (line ∷ lines) errno stop p q ran silent;
    }
  where
    some_sent : c.first_sent ≡ true
    some_sent = elim (Bool-cases c.first_sent) [
      | inl f ↦ f
      | inr fresh ↦ absurd (
          omega (
            arith,
            ap length e,
            ap length (v.before fresh).1,
            length-append (joined (line ∷ lines)) rest,
            length-joined (line ∷ lines),
            long,
          ))
    ]

-- More of it.
later_deliver :
    (id total n now first second : ℕ) (lines : List (List ℕ)) (errno : Bool) (stop : Stop)
    (p q : TcpPeer)
    → 0 < n
    → n + total_length lines < 0x100000000
    → Peer.notifi_read now first second lines errno stop p ≡ ok q
    → IsPeer id total n p
    → IsPeer id total (n + total_length lines) q
later_deliver id total n now first second lines errno stop p q some_read small ran v =
    let (f, a, b, k, s) = v.reading some_read in
    record {
      fresh = λ h. absurd (omega arith);
      reading = λ h. After-cong (ok q) a b (omega (arith, k)) (
          subst (After p.client_id p.total_byte (p.recv_byte + total_length lines)) ran
            (notifi_read-After now first second lines errno stop p f s (omega (arith, k))));
      silent = ran-IsSilent now first second lines errno stop p q ran v.silent;
    }

delivered_length :
    (c : TcpClient) (n : ℕ) (lines : List (List ℕ)) (rest : List ℕ)
    → IsSending c
    → n ≤ c.send_byte
    → joined lines ++ rest ≡ drop n c.wire.stream
    → n + total_length lines ≤ c.send_byte
delivered_length c n lines rest v behind e = omega (
  arith,
  ap length e,
  length-append (joined lines) rest,
  length-joined lines,
  length-drop n c.wire.stream,
  stream_length c v,
)

-- Reads of the peer take it on through the stream of the client, of which they take no more than
-- there is.
pub deliver-IsPeer :
    (c : TcpClient) (n now first second : ℕ) (lines : List (List ℕ)) (rest : List ℕ) (errno : Bool)
    (stop : Stop) (p q : TcpPeer)
    → IsSending c
    → c.client_id < 0x100000000
    → n ≤ c.send_byte
    → (n ≡ 0 → HasHeader lines)
    → joined lines ++ rest ≡ drop n c.wire.stream
    → Peer.notifi_read now first second lines errno stop p ≡ ok q
    → IsPeer c.client_id c.total_byte n p
    → (n + total_length lines ≤ c.send_byte)
      × IsPeer c.client_id c.total_byte (n + total_length lines) q
deliver-IsPeer c zero now first second lines rest errno stop p q v hid behind long e ran w = (
  delivered_length c zero lines rest v behind e,
  subst (λ k. IsPeer c.client_id c.total_byte k q) {x = total_length lines} (omega arith)
      (first_deliver c now first second lines rest errno stop p q v hid (long refl) e ran
        (w.fresh refl) w.silent),
)
deliver-IsPeer c (suc n) now first second lines rest errno stop p q v hid behind long e ran w =
    let le = delivered_length c (suc n) lines rest v behind e in
    (
      le,
      later_deliver c.client_id c.total_byte (suc n) now first second lines errno stop p q
          (omega arith) (omega (arith, le, v.within, v.total_high)) ran w,
    )

pub kernel-IsPeer :
    (id total n : ℕ) (answers : List Wrote) (p : TcpPeer)
    → IsPeer id total n p
    → IsPeer id total n (record p { wire = record (p.wire) { answers = answers } })
kernel-IsPeer id total n answers p v = record {
  fresh = λ e.
      let w = v.fresh e in record { first = w.first; recv = w.recv; done = w.done; told = w.told };
  reading = λ h.
      let (f, a, b, k, s) = v.reading h in (f, a, b, k, record { done = s.done; told = s.told });
  silent = v.silent;
}
