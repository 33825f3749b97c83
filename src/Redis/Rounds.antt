-- ===== src/Redis/Rounds.antt =====
-- One round of the loop of ReadFromClient of redis-main.cc.
use tcp_congestion_mininet.Common.{
  ℕ, ◌+◌, ◌%◌, ◌<◌, ◌≡◌, refl, ap, sym, subst, ◌∙◌, arith, Bool, true, false, List, [], ◌∷◌, ◌++◌,
  leb, if◌then◌else◌, if-elim,
}
use tcp_congestion_mininet.Common.Lists.{length}
use tcp_congestion_mininet.Common.Int.{ℤ, signed32}
use mathlib.Core.List.{append-nil, append_assoc}
use tcp_congestion_mininet.Peer.{header_values}
use tcp_congestion_mininet.Redis.{
  Effect, delete_file_event, close_fd, file_event, send, trace, Globals, emit, done_msg, is_later,
  int_leb, client_close, send_read_done, log_read_bytes, read_header, log_progress, finish,
  read_line,
}

-- The messages that were sent, each with its descriptor, and the descriptors that close(2) was called for.
abbrev pub tally : List Effect → List (ℤ × List ℕ) × List ℤ
tally [] = ([], [])
tally (send fd msg ∷ es) = ((fd, msg) ∷ (tally es).0, (tally es).1)
tally (close_fd fd ∷ es) = ((tally es).0, fd ∷ (tally es).1)
tally (delete_file_event fd ∷ es) = tally es
tally (file_event fd ∷ es) = tally es
tally (trace a b c ∷ es) = tally es

tally-append :
    (es fs : List Effect)
    → ((tally (es ++ fs)).0 ≡ (tally es).0 ++ (tally fs).0)
      × ((tally (es ++ fs)).1 ≡ (tally es).1 ++ (tally fs).1)
tally-append [] fs = (refl, refl)
tally-append (send fd msg ∷ es) fs =
    (ap (λ l. (fd, msg) ∷ l) (tally-append es fs).0, (tally-append es fs).1)
tally-append (close_fd fd ∷ es) fs =
    ((tally-append es fs).0, ap (λ l. fd ∷ l) (tally-append es fs).1)
tally-append (delete_file_event fd ∷ es) fs = tally-append es fs
tally-append (file_event fd ∷ es) fs = tally-append es fs
tally-append (trace a b c ∷ es) fs = tally-append es fs

-- `h` has sent the messages `m` after those of `g`, and called close for `k` after its calls.
pub record More (m : List (ℤ × List ℕ)) (k : List ℤ) (g h : Globals) : Type 0 where
  pub sent : (tally h.effects).0 ≡ (tally g.effects).0 ++ m
  pub closed : (tally h.effects).1 ≡ (tally g.effects).1 ++ k

-- What a round goes by.
abbrev pub counts : Globals → ℕ × ℕ × Bool × Bool
counts g = (g.bytes_total, g.bytes_read, g.first_packet, g.is_open)

pub More-same : (g : Globals) → More [] [] g g
More-same g = record {
  sent = sym (append-nil (tally g.effects).0);
  closed = sym (append-nil (tally g.effects).1);
}

pub More-emit : (es : List Effect) (g : Globals) → More ((tally es).0) ((tally es).1) g (emit es g)
More-emit es g = record {
  sent = (tally-append g.effects es).0;
  closed = (tally-append g.effects es).1;
}

pub More-trans :
    (m : List (ℤ × List ℕ)) (k : List ℤ) (n : List (ℤ × List ℕ)) (l : List ℤ) (f g h : Globals)
    → More m k f g
    → More n l g h
    → More (m ++ n) (k ++ l) f h
More-trans m k n l f g h p q = record {
  sent = q.sent ∙ ap (λ x. x ++ n) p.sent ∙ append_assoc (tally f.effects).0 m n;
  closed = q.closed ∙ ap (λ x. x ++ l) p.closed ∙ append_assoc (tally f.effects).1 k l;
}

log_read_bytes-counts :
    (now : ℕ) (g : Globals)
    → (counts (log_read_bytes now g) ≡ counts g) × More [] [] g (log_read_bytes now g)
unfolding log_read_bytes
log_read_bytes-counts now g =
    if-elim (λ (h : Globals). (counts h ≡ counts g) × More [] [] g h) g.has_trace
      (λ _. (refl, More-emit (trace g.client_id now g.bytes_read ∷ []) g))
      (λ _. (refl, More-same g))

log_progress-counts :
    (now : ℕ) (g : Globals)
    → (counts (log_progress now g) ≡ counts g) × More [] [] g (log_progress now g)
unfolding log_progress
log_progress-counts now g =
    if-elim (λ (h : Globals). (counts h ≡ counts g) × More [] [] g h)
      (is_later now (signed32 g.next_log_time))
      (λ _.
        let (e, m) = log_read_bytes-counts now g in
        (ap (λ x. x) e, record { sent = m.sent; closed = m.closed }))
      (λ _. (refl, More-same g))

read_header-counts :
    (now first second : ℕ) (line : List ℕ) (g : Globals)
    → (counts (read_header now first second line g)
        ≡ ((header_values first second line).1, g.bytes_read, false, g.is_open))
      × More [] [] g (read_header now first second line g)
unfolding read_header
read_header-counts now first second line g =
    let (id, total) = header_values first second line in
    let (e, m) = log_read_bytes-counts now (record g { client_id = id; bytes_total = total }) in
    (
      ap (λ ((t, n, f, o) : ℕ × ℕ × Bool × Bool). (t, n, false, o)) e,
      record { sent = m.sent; closed = m.closed },
    )

finish-More :
    (fd : ℤ) (g : Globals)
    → g.bytes_total < 0x80000000
    → g.bytes_read < 0x80000000
    → let over = leb g.bytes_total g.bytes_read in
      (counts (finish fd g)
        ≡ (g.bytes_total, g.bytes_read, g.first_packet, (if over then false else g.is_open)))
      × More
          (if over then (fd, done_msg) ∷ [] else [])
          (if over then fd ∷ [] else [])
          g
          (finish fd g)
unfolding finish client_close send_read_done
finish-More fd g t n =
    let same : int_leb g.bytes_total g.bytes_read ≡ leb g.bytes_total g.bytes_read = ground arith in
    subst
      (λ b.
        (counts (finish fd g)
          ≡ (g.bytes_total, g.bytes_read, g.first_packet, (if b then false else g.is_open)))
        × More (if b then (fd, done_msg) ∷ [] else []) (if b then fd ∷ [] else []) g (finish fd g))
      same (go (int_leb g.bytes_total g.bytes_read))
  where
    said : Globals
    said = emit (send fd done_msg ∷ []) g

    ended : Globals
    ended =
        record (emit (delete_file_event fd ∷ close_fd fd ∷ []) (emit (send fd done_msg ∷ []) g)) {
          is_open = false;
        }

    go :
        (b : Bool)
        → (counts (if b then ended else g)
            ≡ (g.bytes_total, g.bytes_read, g.first_packet, (if b then false else g.is_open)))
          × More
              (if b then (fd, done_msg) ∷ [] else [])
              (if b then fd ∷ [] else [])
              g
              (if b then ended else g)
    go true =
        let one = More-emit (send fd done_msg ∷ []) g in
        let two =
          More-emit (delete_file_event fd ∷ close_fd fd ∷ []) (emit (send fd done_msg ∷ []) g) in
        (
          refl,
          (let both = More-trans ((fd, done_msg) ∷ []) [] [] (fd ∷ []) g said _ one two in
              record { sent = both.sent; closed = both.closed }),
        )
    go false = (refl, More-same g)

-- The total that a call goes by: the header's, if the packet is the first of all.
abbrev pub total_of : ℕ → ℕ → List ℕ → Globals → ℕ
total_of first second line g =
    if g.first_packet then (header_values first second line).1 else g.bytes_total

headed-counts :
    (now first second : ℕ) (line : List ℕ) (g : Globals)
    → let h : Globals = if g.first_packet then read_header now first second line g else g in
      (counts h ≡ (total_of first second line g, g.bytes_read, false, g.is_open)) × More [] [] g h
headed-counts now first second line g = go g.first_packet refl
  where
    go :
        (b : Bool)
        → g.first_packet ≡ b
        → let h : Globals = if b then read_header now first second line g else g in
          (counts h ≡ (
            (if b then (header_values first second line).1 else g.bytes_total),
            g.bytes_read,
            false,
            g.is_open,
          ))
          × More [] [] g h
    go true f = read_header-counts now first second line g
    go false l = (ap (λ b. (g.bytes_total, g.bytes_read, b, g.is_open)) l, More-same g)

-- A round on an open descriptor.
pub read_line-More :
    (fd : ℤ) (now first second : ℕ) (line : List ℕ) (g : Globals)
    → total_of first second line g < 0x80000000
    → g.bytes_read + length line < 0x80000000
    → let r = read_line fd now first second line g in
      let over = leb (total_of first second line g) (g.bytes_read + length line) in
      (counts r ≡ (
        total_of first second line g,
        g.bytes_read + length line,
        false,
        (if over then false else g.is_open),
      ))
      × More (if over then (fd, done_msg) ∷ [] else []) (if over then fd ∷ [] else []) g r
unfolding read_line
read_line-More fd now first second line g t n =
    let h : Globals = if g.first_packet then read_header now first second line g else g in
    let (he, hm) = headed-counts now first second line g in
    let i : Globals = record h { bytes_read = (h.bytes_read + length line) % 0x100000000 } in
    let (je, jm) = log_progress-counts now i in
    let j = log_progress now i in
    let size = length line in
    let same : counts j ≡ (total_of first second line g, g.bytes_read + size, false, g.is_open) =
      je
      ∙ ap (λ ((t, n, f, o) : ℕ × ℕ × Bool × Bool). (t, (n + size) % 0x100000000, f, o)) he
      ∙ ap (λ n. (total_of first second line g, n, false, g.is_open)) {y = g.bytes_read + size}
          (omega arith) in
    let (fe, fm) =
      finish-More fd j (omega (arith, ap (λ x. x.0) same)) (omega (arith, ap (λ x. x.1) same)) in
    let (e, m) = subst is same (fe, fm) in
    let over = leb (total_of first second line g) (g.bytes_read + size) in
    (
      e,
      More-trans [] [] (if over then (fd, done_msg) ∷ [] else []) (if over then fd ∷ [] else []) g j
          _ (More-trans [] [] [] [] g i j (record { sent = hm.sent; closed = hm.closed }) jm) m,
    )
  where
    is : ℕ × ℕ × Bool × Bool → Type 0
    is (t, n, f, o) =
        let h : Globals = if g.first_packet then read_header now first second line g else g in
        let j =
          log_progress now (record h { bytes_read = (h.bytes_read + length line) % 0x100000000 }) in
        (counts (finish fd j) ≡ (t, n, f, (if leb t n then false else o)))
        × More (if leb t n then (fd, done_msg) ∷ [] else []) (if leb t n then fd ∷ [] else []) j
            (finish fd j)
