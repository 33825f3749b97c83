-- ===== src/Peer/Reading.antt =====
-- NotifiRead of tcp/tcp_peer.cc, on any split of the stream into reads.
use tcp_congestion_mininet.Common.{
  ℕ, ◌+◌, ◌%◌, ◌≤◌, ◌<◌, ◌≡◌, refl, sym, ◌∙◌, arith, Bool, true, false, List, [], ◌∷◌, ◌++◌, leb,
  if◌then◌else◌, Bool-cases, inl, inr,
}
use tcp_congestion_mininet.Common.Lists.{length}
use tcp_congestion_mininet.Common.Int.{is_positive}
use tcp_congestion_mininet.Socket.{Outcome, ok, aborted, ◌>>=◌, Stop, errno_after}
use tcp_congestion_mininet.Peer.{
  peer_close, close_fd, on_peer_read_done, TcpPeer, close, report_recv_length, log_progress, finish,
  count_line, read_line, notifi_read,
}
use tcp_congestion_mininet.Peer.Counting.{
  done_count, done_count-append, Alike, MaybeAlike, report-Alike, log_progress-Alike,
  send_done_signal-Alike,
}

-- The peer has told the server once it had everything, and not before.
pub record IsSettled (p : TcpPeer) : Type 0 where
  pub done : p.send_read_done ≡ leb p.total_byte p.recv_byte
  pub told : done_count p.effects ≡ (if p.send_read_done then 1 else 0)

-- What the peer must know before it compares: it did not tell the server too early.
pub record IsPending (p : TcpPeer) : Type 0 where
  pub early : p.send_read_done ≡ true → p.total_byte ≤ p.recv_byte
  pub told : done_count p.effects ≡ (if p.send_read_done then 1 else 0)

-- After more bytes the peer is settled again; the process may abort instead.
abbrev pub After : (id total recv : ℕ) → Outcome TcpPeer → Type 0
After id total recv aborted = Unit {0}
After id total recv (ok q) =
    (q.first_packet ≡ false)
    × (q.client_id ≡ id)
    × (q.total_byte ≡ total)
    × (q.recv_byte ≡ recv)
    × IsSettled q

pub After-cong :
    {id id' total total' recv recv' : ℕ} (r : Outcome TcpPeer)
    → id ≡ id'
    → total ≡ total'
    → recv ≡ recv'
    → After id total recv r
    → After id' total' recv' r
After-cong aborted p q h k = tt
After-cong (ok x) p q h (f, a, b, c, s) = (f, a ∙ p, b ∙ q, c ∙ h, s)

finish-After :
    (now : ℕ) (p : TcpPeer)
    → p.first_packet ≡ false
    → IsPending p
    → After p.client_id p.total_byte p.recv_byte (finish now p)
unfolding finish
finish-After now p f v = elim (Bool-cases (leb p.total_byte p.recv_byte)) [
  | inr short ↦
      rw short (f, refl, refl, refl, record { done = ground (arith, v.early); told = v.told })
  | inl enough ↦ elim (Bool-cases p.send_read_done) [
    | inl again ↦ rw enough (
        simp again (
          a.first ∙ f,
          a.id,
          a.total,
          a.recv,
          record {
            done = ground (arith, a.done, a.total, a.recv);
            told = ground (arith, a.told, a.done, v.told);
          },
        ))
    | inr fresh ↦
        rw enough
          (simp fresh (go enough fresh _ (send_done_signal-Alike (report_recv_length now p))))
  ]
]
  where
    a : Alike p (report_recv_length now p)
    a = report-Alike now p

    go :
        leb p.total_byte p.recv_byte ≡ true
        → p.send_read_done ≡ false
        → (r : Outcome TcpPeer) → MaybeAlike (report_recv_length now p) r
        → After p.client_id p.total_byte p.recv_byte (
            r >>= λ q.
            ok (record q { effects = q.effects ++ on_peer_read_done ∷ []; send_read_done = true }))
    go enough fresh aborted h = tt
    go enough fresh (ok q) h = (
      h.first ∙ a.first ∙ f,
      h.id ∙ a.id,
      h.total ∙ a.total,
      h.recv ∙ a.recv,
      record {
        done = ground (arith, h.total, a.total, h.recv, a.recv);
        told =
            ground
              (arith, done_count-append q.effects (on_peer_read_done ∷ []), h.told, a.told, v.told);
      },
    )

pub count_line-After :
    (now : ℕ) (line : List ℕ) (p : TcpPeer)
    → p.first_packet ≡ false
    → IsPending p
    → p.recv_byte + length line < 0x100000000
    → After p.client_id p.total_byte (p.recv_byte + length line) (count_line now line p)
unfolding count_line
count_line-After now line p f v small =
    let sum : (p.recv_byte + length line) % 0x100000000 ≡ p.recv_byte + length line = omega arith in
    let q = record p { recv_byte = p.recv_byte + length line } in
    let a = log_progress-Alike now q in
    let w : IsPending (log_progress now q) = record {
      early = λ e. omega (arith, v.early (sym a.done ∙ e), a.total, a.recv);
      told = ground (arith, a.told, a.done, v.told);
    } in
    rw sum
      (After-cong _ a.id a.total a.recv (finish-After now (log_progress now q) (a.first ∙ f) w))

-- One read of a peer past its first packet.
pub read_line-After :
    (now first second : ℕ) (line : List ℕ) (p : TcpPeer)
    → p.first_packet ≡ false
    → IsSettled p
    → p.recv_byte + length line < 0x100000000
    → After p.client_id p.total_byte (p.recv_byte + length line) (read_line now first second line p)
unfolding read_line
read_line-After now first second line p f v small = simp f (
    count_line-After now line p f (record { early = λ e. ground (arith, v.done); told = v.told })
      small)

-- The number of bytes in a list of reads.
abbrev pub total_length : List (List ℕ) → ℕ
total_length [] = 0
total_length (line ∷ lines) = length line + total_length lines

close-After :
    (id total recv : ℕ) (p : TcpPeer)
    → After id total recv (ok p)
    → After id total recv
        (ok (close (record p { effects = p.effects ++ peer_close p.sockfd ∷ [] })))
unfolding close
close-After id total recv p (f, a, b, c, s) = elim (Bool-cases (is_positive p.sockfd)) [
  | inl open_ ↦
      rw open_ (f, a, b, c, record { done = s.done; told = ground (arith, s.told, one, two) })
  | inr closed ↦
      rw closed (f, a, b, c, record { done = s.done; told = ground (arith, s.told, one) })
]
  where
    one : done_count (p.effects ++ peer_close p.sockfd ∷ []) ≡ done_count p.effects + 0
    one = done_count-append p.effects (peer_close p.sockfd ∷ [])

    two :
        done_count ((p.effects ++ peer_close p.sockfd ∷ []) ++ close_fd p.sockfd ∷ [])
        ≡ done_count (p.effects ++ peer_close p.sockfd ∷ []) + 0
    two = done_count-append (p.effects ++ peer_close p.sockfd ∷ []) (close_fd p.sockfd ∷ [])

-- A call of NotifiRead on a settled peer past its first packet, with fewer than 2 ^ 32 bytes in
-- all: unless a CHECK aborts the process, every byte is counted, and the server was told once if
-- the total is reached, and not otherwise.
pub notifi_read-After :
    (now first second : ℕ) (lines : List (List ℕ)) (errno : Bool) (stop : Stop) (p : TcpPeer)
    → p.first_packet ≡ false
    → IsSettled p
    → p.recv_byte + total_length lines < 0x100000000
    → After p.client_id p.total_byte
        (p.recv_byte + total_length lines)
        (notifi_read now first second lines errno stop p)
unfolding notifi_read
notifi_read-After now first second [] errno stop p f v small =
    let kept : After p.client_id p.total_byte (p.recv_byte + 0) (ok p) =
      (f, refl, refl, omega arith, v) in
    elim (Bool-cases (errno_after errno stop)) [
      | inl again ↦ rw again kept
      | inr over ↦ rw over (close-After p.client_id p.total_byte (p.recv_byte + 0) p kept)
    ]
notifi_read-After now first second (line ∷ lines) errno stop p f v small =
    go _ (read_line-After now first second line p f v (omega arith))
      (λ q g s l. notifi_read-After now first second lines errno stop q g s l)
  where
    go :
        (r : Outcome TcpPeer)
        → After p.client_id p.total_byte (p.recv_byte + length line) r
        → ((q : TcpPeer)
            → q.first_packet ≡ false
            → IsSettled q
            → q.recv_byte + total_length lines < 0x100000000
            → After q.client_id q.total_byte
                (q.recv_byte + total_length lines)
                (notifi_read now first second lines errno stop q))
        → After p.client_id p.total_byte
            (p.recv_byte + (length line + total_length lines))
            (r >>= λ q. notifi_read now first second lines errno stop q)
    go aborted a ih = tt
    go (ok q) (g, a, b, c, s) ih =
        After-cong (notifi_read now first second lines errno stop q) a b (omega (arith, c))
          (ih q g s (omega (arith, c)))
