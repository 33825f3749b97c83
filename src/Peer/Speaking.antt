-- ===== src/Peer/Speaking.antt =====
-- What a peer of tcp/tcp_peer.cc writes to its client: nothing before it has read everything, and then
-- its message, if the kernel takes it.
use tcp_congestion_mininet.Common.{
  ℕ, ◌+◌, ◌%◌, ◌≤◌, ◌≡◌, refl, ap, ap₂, sym, subst, ◌∙◌, arith, Bool, true, false, List, [], ◌∷◌,
  ◌++◌, leb, if◌then◌else◌, if-elim,
}
use tcp_congestion_mininet.Common.Lists.{length, length-append, take}
use tcp_congestion_mininet.Common.Int.{ℤ, is_positive}
use tcp_congestion_mininet.Socket.{
  Outcome, ok, aborted, Returns, Yields, Yields-bind, Wrote, accepts, would_block, breaks, Wire,
  taken, Stop, errno_after, fails,
}
use tcp_congestion_mininet.Peer.{
  emit, close, peer_close, TcpPeer, done_message, report_recv_length, answer_write, write_message,
  send_done_signal, header_values, read_header, log_progress, finish, count_line, read_line,
  notifi_read,
}

-- What the peer's side of the wire hangs on.
abbrev pub voice : TcpPeer → ℤ × Bool × Wire
voice p = (p.sockfd, p.send_read_done, p.wire)

report-voice : (now : ℕ) (p : TcpPeer) → voice (report_recv_length now p) ≡ voice p
unfolding report_recv_length
report-voice now p = if-elim (λ q. voice q ≡ voice p) p.has_trace (λ _. refl) (λ _. refl)

log_progress-voice : (now : ℕ) (p : TcpPeer) → voice (log_progress now p) ≡ voice p
unfolding log_progress
log_progress-voice now p =
    if-elim (λ q. voice q ≡ voice p) (leb p.next_time_print_log now)
      (λ _. ap (λ x. x) (report-voice now p)) (λ _. refl)

read_header-voice :
    (now first second : ℕ) (line : List ℕ) (p : TcpPeer)
    → voice (read_header now first second line p) ≡ voice p
unfolding read_header
read_header-voice now first second line p = report-voice now (record p {
  client_id = (header_values first second line).0;
  total_byte = (header_values first second line).1;
})

-- A property of the voice that the done message establishes, and that every step keeps.
module _ (X : Type 0) (P : ℤ × Bool × Wire → Type 0)
    (spoken : (p : TcpPeer)
      → p.send_read_done ≡ false
      → P (voice p)
      → Yields X (λ q. P (voice (record q { send_read_done = true }))) (send_done_signal p)) where
  finish-voice : (now : ℕ) (p : TcpPeer) → P (voice p) → Yields X (λ q. P (voice q)) (finish now p)
  unfolding finish
  finish-voice now p v =
      let q = report_recv_length now p in
      let w : P (voice q) = subst P (sym (report-voice now p)) v in
      if-elim (Yields X (λ x. P (voice x))) (leb p.total_byte p.recv_byte)
        (λ _.
          if-elim (Yields X (λ x. P (voice x))) p.send_read_done (λ _. w)
            (λ fresh.
              Yields-bind X (λ x. P (voice (record x { send_read_done = true }))) (λ x. P (voice x))
                (send_done_signal q) _ (spoken q (ap (λ x. x.1) (report-voice now p) ∙ fresh) w)
                (λ x y. y)))
        (λ _. v)

  read_line-voice :
      (now first second : ℕ) (line : List ℕ) (p : TcpPeer)
      → P (voice p)
      → Yields X (λ q. P (voice q)) (read_line now first second line p)
  unfolding read_line count_line
  read_line-voice now first second line p v =
      let h : TcpPeer = if p.first_packet then read_header now first second line p else p in
      let w : P (voice h) =
        if-elim (λ (x : TcpPeer). P (voice x)) p.first_packet
          (λ _. subst P (sym (read_header-voice now first second line p)) v) (λ _. v) in
      let c : TcpPeer = record h { recv_byte = (h.recv_byte + length line) % 0x100000000 } in
      finish-voice now (log_progress now c) (subst P (sym (log_progress-voice now c)) w)

  pub notifi_read-voice :
      (now first second : ℕ) (lines : List (List ℕ)) (errno : Bool) (stop : Stop) (p : TcpPeer)
      → ((q : TcpPeer)
          → errno_after errno stop ≡ false
          → P (voice q)
          → P (voice (close (emit (peer_close q.sockfd ∷ []) q))))
      → P (voice p)
      → Yields X (λ q. P (voice q)) (notifi_read now first second lines errno stop p)
  unfolding notifi_read
  notifi_read-voice now first second [] errno stop p closed v =
      if-elim (Yields X (λ (q : TcpPeer). P (voice q))) (errno_after errno stop) (λ _. v)
        (λ over. closed p over v)
  notifi_read-voice now first second (line ∷ lines) errno stop p closed v =
      Yields-bind X (λ q. P (voice q)) (λ q. P (voice q)) (read_line now first second line p) _
        (read_line-voice now first second line p v)
        (λ q w. notifi_read-voice now first second lines errno stop q closed w)

-- Closing leaves what was said and written.
close-voice :
    (Q : Bool × Wire → Type 0) (p : TcpPeer)
    → Q (p.send_read_done, p.wire)
    → let q = close (emit (peer_close p.sockfd ∷ []) p) in Q (q.send_read_done, q.wire)
unfolding close
close-voice Q p v =
    if-elim (λ (q : TcpPeer). Q (q.send_read_done, q.wire)) (is_positive p.sockfd) (λ _. v) (λ _. v)

-- The peer has written nothing as long as it has not told the server.
abbrev pub IsSilent : ℤ × Bool × Wire → Type 0
IsSilent (fd, told, w) = told ≡ false → w.stream ≡ []

-- What may follow: an abort, or a peer that is silent until it has told the server.
pub notifi_read-IsSilent :
    (now first second : ℕ) (lines : List (List ℕ)) (errno : Bool) (stop : Stop) (p : TcpPeer)
    → IsSilent (voice p)
    → Yields (Unit {0}) (λ q. IsSilent (voice q)) (notifi_read now first second lines errno stop p)
notifi_read-IsSilent now first second lines errno stop p v =
    notifi_read-voice (Unit {0}) IsSilent (λ q fresh w. any (send_done_signal q)) now first second
      lines errno stop p (λ q over w. close-voice (λ (t, w). t ≡ false → w.stream ≡ []) q w) v
  where
    any :
        (r : Outcome TcpPeer)
        → Yields (Unit {0}) (λ q. IsSilent (voice (record q { send_read_done = true }))) r
    any (ok q) = λ e. (cc)
    any aborted = tt

-- The stream of a peer only grows.
send_done_signal-grows :
    (n : ℕ) (p : TcpPeer)
    → n ≤ length p.wire.stream
    → Yields (Unit {0}) (λ q. n ≤ length q.wire.stream) (send_done_signal p)
unfolding send_done_signal write_message answer_write
send_done_signal-grows n p h =
    if-elim (Yields (Unit {0}) (λ (q : TcpPeer). n ≤ length q.wire.stream)) (is_positive p.sockfd)
      (λ _. go p.wire.answers) (λ _. h)
  where
    go :
        (l : List Wrote)
        → Yields (Unit {0}) (λ q. n ≤ length q.wire.stream) (answer_write done_message p l)
    go [] = h
    go (accepts k ∷ l) =
        omega (arith, h, length-append p.wire.stream (take (taken k 14) done_message))
    go (would_block ∷ l) = h
    go (breaks ∷ l) = tt

pub notifi_read-grows :
    (n now first second : ℕ) (lines : List (List ℕ)) (errno : Bool) (stop : Stop) (p : TcpPeer)
    → n ≤ length p.wire.stream
    → Yields
        (Unit {0})
        (λ q. n ≤ length q.wire.stream)
        (notifi_read now first second lines errno stop p)
notifi_read-grows n now first second lines errno stop p h =
    notifi_read-voice (Unit {0}) (λ (fd, t, w). n ≤ length w.stream)
      (λ q fresh w. send_done_signal-grows n q w) now first second lines errno stop p
      (λ q over w. close-voice (λ (t, w). n ≤ length w.stream) q w) h

-- A socket whose kernel takes the whole message, and one that has taken it.
abbrev pub IsHeard : ℤ → ℤ × Bool × Wire → Type 0
IsHeard fd (fd', false, w) =
    (fd' ≡ fd)
    × (w.stream ≡ [])
    × ((k : ℕ) × (l : List Wrote) × (w.answers ≡ accepts k ∷ l) × (13 ≤ k))
IsHeard fd (fd', true, w) = w.stream ≡ done_message

answer_write-done :
    (p : TcpPeer) (k : ℕ) (l m : List Wrote)
    → m ≡ accepts k ∷ l
    → p.wire.stream ≡ []
    → 13 ≤ k
    → Returns (λ q. q.wire.stream ≡ done_message) (answer_write done_message p m)
unfolding answer_write
answer_write-done p k l m e s h =
    subst (λ x. Returns (λ q. q.wire.stream ≡ done_message) (answer_write done_message p x)) (sym e)
      (ap₂ ◌++◌ s (ap (λ n. take n done_message) {y = 14} (omega arith)))

send_done_signal-IsHeard :
    (fd : ℤ) (p : TcpPeer)
    → is_positive fd ≡ true
    → p.send_read_done ≡ false
    → IsHeard fd (voice p)
    → Returns (λ q. IsHeard fd (voice (record q { send_read_done = true }))) (send_done_signal p)
unfolding send_done_signal write_message
send_done_signal-IsHeard fd p open_ fresh v =
    let (same, empty, (k, l, e, h)) = subst (λ b. IsHeard fd (p.sockfd, b, p.wire)) fresh v in
    rw (ap is_positive same ∙ open_) (answer_write-done p k l p.wire.answers e empty h)

-- A new peer with an open socket, whose kernel takes the whole done message, returns from its reads,
-- and has written the message if it has told the server.
pub notifi_read-IsHeard :
    (now first second : ℕ) (lines : List (List ℕ)) (errno : Bool) (p : TcpPeer)
    → is_positive p.sockfd ≡ true
    → IsHeard p.sockfd (voice p)
    → Returns
        (λ q. IsHeard p.sockfd (voice q))
        (notifi_read now first second lines errno (fails true) p)
notifi_read-IsHeard now first second lines errno p open_ v =
    notifi_read-voice ⊥ (IsHeard p.sockfd)
      (λ q fresh w. send_done_signal-IsHeard p.sockfd q open_ fresh w) now first second lines errno
      (fails true) p (λ q over w. absurd (cc)) v
