-- ===== src/Peer/Telling.antt =====
-- How often a call of a peer of tcp/tcp_peer.cc tells the server, whatever it told it before.
use tcp_congestion_mininet.Common.{
  ℕ, ◌+◌, ◌%◌, ◌≡◌, refl, ◌∙◌, arith, Bool, true, false, List, [], ◌∷◌, ◌++◌, leb, if◌then◌else◌,
  if-elim,
}
use tcp_congestion_mininet.Common.Lists.{length}
use tcp_congestion_mininet.Common.Int.{is_positive}
use tcp_congestion_mininet.Socket.{
  Outcome, ok, aborted, ◌>>=◌, Yields, Yields-bind, Stop, errno_after,
}
use tcp_congestion_mininet.Peer.{
  TcpPeer, peer_close, close_fd, on_peer_read_done, close, report_recv_length, read_header,
  log_progress, send_done_signal, finish, count_line, read_line, notifi_read, header_values,
}
use tcp_congestion_mininet.Peer.Counting.{
  done_count, done_count-append, Alike, MaybeAlike, report-Alike, log_progress-Alike,
  send_done_signal-Alike,
}

-- `q` has told the server as often as `p`, and once more if it is the first to have told it.
pub record Tells (p q : TcpPeer) : Type 0 where
  pub still : p.send_read_done ≡ true → q.send_read_done ≡ true
  pub once :
      done_count q.effects
      ≡ done_count p.effects + (if p.send_read_done then 0 else if q.send_read_done then 1 else 0)

Tells-trans : (p q r : TcpPeer) → Tells p q → Tells q r → Tells p r
Tells-trans p q r a b = record {
  still = λ h. b.still (a.still h);
  once = ground (arith, a.once, b.once, a.still, b.still);
}

quiet-Tells :
    (p q : TcpPeer)
    → q.send_read_done ≡ p.send_read_done
    → done_count q.effects ≡ done_count p.effects
    → Tells p q
quiet-Tells p q same told = record { still = λ h. same ∙ h; once = ground (arith, same, told) }

Alike-Tells : (p q : TcpPeer) → Alike p q → Tells p q
Alike-Tells p q a = quiet-Tells p q a.done a.told

read_header-Tells :
    (now first second : ℕ) (line : List ℕ) (p : TcpPeer)
    → Tells p (read_header now first second line p)
unfolding read_header
read_header-Tells now first second line p =
    let (id, total) = header_values first second line in
    let a = report-Alike now (record p { client_id = id; total_byte = total }) in
    quiet-Tells p _ a.done a.told

finish-Tells : (now : ℕ) (p : TcpPeer) → Yields (Unit {0}) (Tells p) (finish now p)
unfolding finish
finish-Tells now p =
    let q = report_recv_length now p in
    let a = report-Alike now p in
    if-elim (Yields (Unit {0}) (Tells p)) (leb p.total_byte p.recv_byte)
      (λ _.
        if-elim (Yields (Unit {0}) (Tells p)) p.send_read_done (λ _. Alike-Tells p q a)
          (λ fresh. go fresh a (send_done_signal q) (send_done_signal-Alike q)))
      (λ _. quiet-Tells p p refl refl)
  where
    go :
        p.send_read_done ≡ false
        → Alike p (report_recv_length now p)
        → (r : Outcome TcpPeer) → MaybeAlike (report_recv_length now p) r
        → Yields (Unit {0}) (Tells p) (
            r >>= λ q.
            ok (record q { effects = q.effects ++ on_peer_read_done ∷ []; send_read_done = true }))
    go fresh a aborted h = tt
    go fresh a (ok q) h = record {
      still = λ _. refl;
      once =
          ground
            (arith, fresh, done_count-append q.effects (on_peer_read_done ∷ []), h.told, a.told);
    }

read_line-Tells :
    (now first second : ℕ) (line : List ℕ) (p : TcpPeer)
    → Yields (Unit {0}) (Tells p) (read_line now first second line p)
unfolding read_line count_line
read_line-Tells now first second line p =
    let h : TcpPeer = if p.first_packet then read_header now first second line p else p in
    let headed : Tells p h =
      if-elim (Tells p) p.first_packet (λ _. read_header-Tells now first second line p)
        (λ _. quiet-Tells p p refl refl) in
    let c : TcpPeer = record h { recv_byte = (h.recv_byte + length line) % 0x100000000 } in
    let logged =
      Tells-trans p h (log_progress now c) headed
        (let a = log_progress-Alike now c in quiet-Tells h (log_progress now c) a.done a.told) in
    weaken (finish now (log_progress now c)) (log_progress now c) logged
      (finish-Tells now (log_progress now c))
  where
    weaken :
        (r : Outcome TcpPeer) (q : TcpPeer)
        → Tells p q
        → Yields (Unit {0}) (Tells q) r
        → Yields (Unit {0}) (Tells p) r
    weaken (ok x) q a b = Tells-trans p q x a b
    weaken aborted q a b = tt

close-Tells :
    (p : TcpPeer) → Tells p (close (record p { effects = p.effects ++ peer_close p.sockfd ∷ [] }))
unfolding close
close-Tells p =
    let q : TcpPeer = record p { effects = p.effects ++ peer_close p.sockfd ∷ [] } in
    let one = done_count-append p.effects (peer_close p.sockfd ∷ []) in
    let two = done_count-append q.effects (close_fd p.sockfd ∷ []) in
    if-elim (λ (r : TcpPeer). Tells p (record r { has_trace = false })) (is_positive p.sockfd)
      (λ _. quiet-Tells p _ refl (omega (arith, one, two)))
      (λ _. quiet-Tells p _ refl (omega (arith, one)))

-- A call of NotifiRead that does not abort tells the server at most once, and only if the peer had not
-- told it before.
pub notifi_read-Tells :
    (now first second : ℕ) (lines : List (List ℕ)) (errno : Bool) (stop : Stop) (p : TcpPeer)
    → Yields (Unit {0}) (Tells p) (notifi_read now first second lines errno stop p)
unfolding notifi_read
notifi_read-Tells now first second [] errno stop p =
    if-elim (Yields (Unit {0}) (Tells p)) (errno_after errno stop) (λ _. quiet-Tells p p refl refl)
      (λ _. close-Tells p)
notifi_read-Tells now first second (line ∷ lines) errno stop p =
    Yields-bind (Unit {0}) (Tells p) (Tells p) (read_line now first second line p) _
      (read_line-Tells now first second line p)
      (λ q a.
        weaken (notifi_read now first second lines errno stop q) q a
          (notifi_read-Tells now first second lines errno stop q))
  where
    weaken :
        (r : Outcome TcpPeer) (q : TcpPeer)
        → Tells p q
        → Yields (Unit {0}) (Tells q) r
        → Yields (Unit {0}) (Tells p) r
    weaken (ok x) q a b = Tells-trans p q x a b
    weaken aborted q a b = tt
