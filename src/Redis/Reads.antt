-- ===== src/Redis/Reads.antt =====
-- What one call of ReadFromClient of redis-main.cc sends and closes.
use tcp_congestion_mininet.Common.{
  ℕ, ◌+◌, ◌<◌, ◌≡◌, refl, ap, ap₂, sym, subst, ◌∙◌, arith, Bool, true, false, List, [], ◌∷◌, leb,
  if◌then◌else◌, if-elim, Bool-cases, inl, inr,
}
use tcp_congestion_mininet.Common.Lists.{length}
use tcp_congestion_mininet.Common.Int.{ℤ}
use tcp_congestion_mininet.Socket.{Stop, errno_after}
use tcp_congestion_mininet.Peer.{header_values}
use tcp_congestion_mininet.Peer.Reading.{total_length}
use tcp_congestion_mininet.Redis.{
  delete_file_event, close_fd, done_msg, Globals, client_close, read_line, read_from_client,
}
use tcp_congestion_mininet.Redis.Rounds.{
  More, More-same, More-emit, More-trans, total_of, read_line-More,
}

client_close-More : (fd : ℤ) (g : Globals) → More [] (fd ∷ []) g (client_close fd g)
unfolding client_close
client_close-More fd g =
    let m = More-emit (delete_file_event fd ∷ close_fd fd ∷ []) g in
    record { sent = m.sent; closed = m.closed }

client_close-closed : (fd : ℤ) (g : Globals) → (client_close fd g).is_open ≡ false
unfolding client_close
client_close-closed fd g = refl

-- A read of the closed descriptor.
read_from_client-closed :
    (fd : ℤ) (now first second : ℕ) (lines : List (List ℕ)) (errno : Bool) (stop : Stop)
    (g : Globals)
    → g.is_open ≡ false
    → read_from_client fd now first second lines errno stop g ≡ client_close fd g
unfolding read_from_client
read_from_client-closed fd now first second [] errno stop g c =
    if-elim (λ (h : Globals). h ≡ client_close fd g) g.is_open (λ o. absurd (cc)) (λ _. refl)
read_from_client-closed fd now first second (line ∷ lines) errno stop g c =
    if-elim (λ (h : Globals). h ≡ client_close fd g) g.is_open (λ o. absurd (cc)) (λ _. refl)

read_from_client-open :
    (fd : ℤ) (now first second : ℕ) (line : List ℕ) (lines : List (List ℕ)) (errno : Bool)
    (stop : Stop) (g : Globals)
    → g.is_open ≡ true
    → read_from_client fd now first second (line ∷ lines) errno stop g
      ≡ read_from_client fd now first second lines errno stop (read_line fd now first second line g)
unfolding read_from_client
read_from_client-open fd now first second line lines errno stop g o =
    if-elim
      (λ (h : Globals).
        h
        ≡ read_from_client fd now first second lines errno stop
            (read_line fd now first second line g))
      g.is_open (λ _. refl) (λ c. absurd (cc))

-- The total that the reads go by.
abbrev pub total_for : ℕ → ℕ → List (List ℕ) → Globals → ℕ
total_for first second [] g = g.bytes_total
total_for first second (line ∷ lines) g = total_of first second line g

-- Whether the reads, of `total_length` bytes in all, reach the total.
abbrev pub is_over : ℕ → ℕ → List (List ℕ) → Globals → Bool
is_over first second [] g = false
is_over first second (line ∷ lines) g =
    leb (total_of first second line g) (g.bytes_read + total_length (line ∷ lines))

total_for-later :
    (first second t : ℕ) (lines : List (List ℕ)) (h : Globals)
    → h.first_packet ≡ false
    → h.bytes_total ≡ t
    → total_for first second lines h ≡ t
total_for-later first second t [] h f e = e
total_for-later first second t (line ∷ lines) h f e =
    ap (λ b. if b then (header_values first second line).1 else h.bytes_total) f ∙ e

is_over-later :
    (first second t n : ℕ) (lines : List (List ℕ)) (h : Globals)
    → h.first_packet ≡ false
    → h.bytes_total ≡ t
    → h.bytes_read ≡ n
    → leb t n ≡ false
    → is_over first second lines h ≡ leb t (n + total_length lines)
is_over-later first second t n [] h f e k short = sym short ∙ ap (leb t) (omega arith)
is_over-later first second t n (line ∷ lines) h f e k short =
    ap₂ leb (total_for-later first second t (line ∷ lines) h f e)
      (ap (λ m. m + total_length (line ∷ lines)) k)

-- What a call sends and closes.
pub record IsServed (fd : ℤ) (over again : Bool) (g r : Globals) : Type 0 where
  pub more :
      More
        (if over then (fd, done_msg) ∷ [] else [])
        (if over then fd ∷ fd ∷ [] else if again then [] else fd ∷ [])
        g
        r
  pub left_open : r.is_open ≡ (if over then false else again)

last_read :
    (fd : ℤ) (now first second : ℕ) (errno : Bool) (stop : Stop) (g : Globals)
    → g.is_open ≡ true
    → IsServed fd false
        (errno_after errno stop)
        g
        (read_from_client fd now first second [] errno stop g)
unfolding read_from_client
last_read fd now first second errno stop g o =
    if-elim (IsServed fd false (errno_after errno stop) g) g.is_open
      (λ _. go (errno_after errno stop)) (λ c. absurd (cc))
  where
    go : (b : Bool) → IsServed fd false b g (if b then g else client_close fd g)
    go true = record { more = More-same g; left_open = o }
    go false = record { more = client_close-More fd g; left_open = client_close-closed fd g }

IsServed-step :
    (fd : ℤ) (over again : Bool) (g h r : Globals)
    → More [] [] g h
    → IsServed fd over again h r
    → IsServed fd over again g r
IsServed-step fd over again g h r m v = record {
  more = More-trans [] [] _ _ g h r m v.more;
  left_open = v.left_open;
}

-- A call for an open connection, where the total and the bytes in all are below 2 ^ 31: if the
-- reads reach the total, the call sends "read done" with its terminating zero once, to the
-- connection's descriptor, and calls close twice for that descriptor; otherwise it sends nothing, and
-- calls close once for that descriptor, or for none and it stays open, as errno says at the end.
-- What was sent and closed before stays as it was.
pub read_from_client_lem :
    (fd : ℤ) (now first second : ℕ) (lines : List (List ℕ)) (errno : Bool) (stop : Stop)
    (g : Globals)
    → g.is_open ≡ true
    → total_for first second lines g < 0x80000000
    → g.bytes_read + total_length lines < 0x80000000
    → IsServed fd
        (is_over first second lines g)
        (errno_after errno stop)
        g
        (read_from_client fd now first second lines errno stop g)
read_from_client_lem fd now first second [] errno stop g o t n =
    last_read fd now first second errno stop g o
read_from_client_lem fd now first second (line ∷ lines) errno stop g o t n =
    let total = total_of first second line g in
    let read = g.bytes_read + length line in
    let h = read_line fd now first second line g in
    let (e, m) = read_line-More fd now first second line g t (omega (arith, n)) in
    let f : h.first_packet ≡ false = ap (λ x. x.2) e in
    let again = errno_after errno stop in
    rw (read_from_client-open fd now first second line lines errno stop g o)
      (elim (Bool-cases (leb total read)) [
        | inl over ↦
            let all : is_over first second (line ∷ lines) g ≡ true = ground (arith, over) in
            let first_closed =
              subst
                (λ b. More (if b then (fd, done_msg) ∷ [] else []) (if b then fd ∷ [] else []) g h)
                over m in
            let closed = ap (λ x. x.3) e ∙ ap (λ b. if b then false else g.is_open) over in
            subst
              (λ b. IsServed fd b again g (read_from_client fd now first second lines errno stop h))
              (sym all)
              (subst (IsServed fd true again g)
                (sym (read_from_client-closed fd now first second lines errno stop h closed))
                (record {
                  more =
                      More-trans ((fd, done_msg) ∷ []) (fd ∷ []) [] (fd ∷ []) g h
                        (client_close fd h) first_closed (client_close-More fd h);
                  left_open = client_close-closed fd h;
                }))
        | inr short ↦
            let none_closed =
              subst
                (λ b. More (if b then (fd, done_msg) ∷ [] else []) (if b then fd ∷ [] else []) g h)
                short m in
            let open_ = ap (λ x. x.3) e ∙ ap (λ b. if b then false else g.is_open) short ∙ o in
            let b : h.bytes_total ≡ total = ap (λ x. x.0) e in
            let k : h.bytes_read ≡ read = ap (λ x. x.1) e in
            let same : is_over first second lines h ≡ is_over first second (line ∷ lines) g =
              is_over-later first second total read lines h f b k short
              ∙ ap (leb total) (omega arith) in
            IsServed-step fd (is_over first second (line ∷ lines) g) again g h _ none_closed (
              subst
                (λ b.
                  IsServed fd b again h (read_from_client fd now first second lines errno stop h))
                same
                (read_from_client_lem fd now first second lines errno stop h open_
                  (omega (arith, t, total_for-later first second total lines h f b))
                  (omega (arith, n, k))))
      ])
