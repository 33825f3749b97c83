-- ===== src/Client/Deactive.antt =====
-- The client of tcp/tcp_client.cc tells the counter of active clients once that it is done.
use tcp_congestion_mininet.Common.{
  ℕ, zero, suc, ltb, ◌≡◌, refl, ap, sym, ◌∙◌, arith, Bool, true, false, ◌&&◌, Option, [], ◌∷◌,
  if◌then◌else◌, if-elim, lt-ltb, ◌||◌,
}
use tcp_congestion_mininet.Socket.{Stop, errno_after}
use tcp_congestion_mininet.Client.{
  TcpClient, emit, TcpInfo, decrease, notifi_deactive_msg, notifi_read,
}
use tcp_congestion_mininet.Client.Quiet.{
  decreases, decreases-append, Quiet, log_tcp_info_event-Quiet, close-Quiet,
}

-- The counter heard of the client once if the client says so, and never otherwise.
pub record IsCounted (c : TcpClient) : Type 0 where
  pub yet : c.deactive_sent ≡ false → decreases c.effects ≡ 0
  pub told : c.deactive_sent ≡ true → decreases c.effects ≡ (if c.has_counter then 1 else 0)

pub Quiet-IsCounted : (c d : TcpClient) → Quiet c d → IsCounted c → IsCounted d
Quiet-IsCounted c d q v = record {
  yet = λ e. q.calls ∙ v.yet (sym q.sent ∙ e);
  told = λ e. q.calls ∙ v.told (sym q.sent ∙ e) ∙ ap (λ b. if b then 1 else 0) (sym q.counter);
}

-- What NotifiDeactiveMsg leaves.
pub record Told (c d : TcpClient) : Type 0 where
  pub counted : IsCounted d
  pub sent : d.deactive_sent ≡ true
  pub counter : d.has_counter ≡ c.has_counter

pub notifi_deactive_msg-Told :
    (answer : Option TcpInfo) (c : TcpClient) → IsCounted c → Told c (notifi_deactive_msg answer c)
unfolding notifi_deactive_msg
notifi_deactive_msg-Told answer c v =
    let d : TcpClient = if c.has_counter then emit (decrease ∷ []) c else c in
    let e : TcpClient = record d { deactive_sent = true } in
    if-elim (Told c) c.deactive_sent (λ sent. record { counted = v; sent = sent; counter = refl })
      (λ fresh.
        let kept : d.has_counter ≡ c.has_counter =
          if-elim (λ (x : TcpClient). x.has_counter ≡ c.has_counter) c.has_counter (λ _. refl)
            (λ _. refl) in
        let count : decreases d.effects ≡ (if c.has_counter then 1 else 0) = called c v fresh in
        let q = log_tcp_info_event-Quiet answer e in
        record {
          counted = Quiet-IsCounted e _ q (record {
            yet = λ x. (cc);
            told = λ x. count ∙ ap (λ b. if b then 1 else 0) (sym kept);
          });
          sent = q.sent;
          counter = q.counter ∙ kept;
        })
  where
    called :
        (c : TcpClient)
        → IsCounted c
        → c.deactive_sent ≡ false
        → let d : TcpClient = if c.has_counter then emit (decrease ∷ []) c else c in
          decreases d.effects ≡ (if c.has_counter then 1 else 0)
    called c v fresh = go c.has_counter
      where
        go :
            (b : Bool)
            → let d : TcpClient = if b then emit (decrease ∷ []) c else c in
              decreases d.effects ≡ (if b then 1 else 0)
        go true = omega (arith, decreases-append c.effects (decrease ∷ []), v.yet fresh)
        go false = v.yet fresh

-- What a call of NotifiRead with that many reads leaves.
pub record Heard (reads : ℕ) (c d : TcpClient) : Type 0 where
  pub counted : IsCounted d
  pub sent : d.deactive_sent ≡ (ltb 0 reads || c.deactive_sent)
  pub counter : d.has_counter ≡ c.has_counter

pub notifi_read-Heard :
    (reads : ℕ) (errno : Bool) (stop : Stop) (logged closed : Option TcpInfo) (c : TcpClient)
    → IsCounted c
    → Heard reads c (notifi_read reads errno stop logged closed c)
unfolding notifi_read
notifi_read-Heard zero errno stop logged closed c v =
    let q = close-Quiet closed c in
    if-elim (Heard 0 c) (errno_after errno stop)
      (λ _. record { counted = v; sent = refl; counter = refl })
      (λ _. record { counted = Quiet-IsCounted c _ q v; sent = q.sent; counter = q.counter })
notifi_read-Heard (suc reads) errno stop logged closed c v =
    let b : TcpClient = record c { recv_ack = true } in
    let t = notifi_deactive_msg-Told logged b (record { yet = v.yet; told = v.told }) in
    let d = notifi_deactive_msg logged b in
    let h = notifi_read-Heard reads errno stop logged closed d t.counted in
    record {
      counted = h.counted;
      sent =
          h.sent
          ∙ or_true (ltb 0 reads) d.deactive_sent t.sent
          ∙ ap (λ x. x || c.deactive_sent) (sym (lt-ltb 0 (suc reads) (omega arith)));
      counter = h.counter ∙ t.counter;
    }
  where
    or_true : (x y : Bool) → y ≡ true → (x || y) ≡ true
    or_true true y e = refl
    or_true false y e = e

-- On a client that is counted right, the calls of Decrease after a call of NotifiRead are one if
-- it read something or had called before, and zero otherwise; without a counter they are zero;
-- and it is counted right.
pub notifi_read-decreases :
    (reads : ℕ) (errno : Bool) (stop : Stop) (logged closed : Option TcpInfo) (c : TcpClient)
    → IsCounted c
    → IsCounted (notifi_read reads errno stop logged closed c)
      × (decreases (notifi_read reads errno stop logged closed c).effects
          ≡ (if (ltb 0 reads || c.deactive_sent) && c.has_counter then 1 else 0))
notifi_read-decreases reads errno stop logged closed c v =
    let h = notifi_read-Heard reads errno stop logged closed c v in
    (h.counted, count _ h (ltb 0 reads || c.deactive_sent) refl)
  where
    count :
        (d : TcpClient)
        → Heard reads c d
        → (b : Bool) → (ltb 0 reads || c.deactive_sent) ≡ b
        → decreases d.effects ≡ (if b && c.has_counter then 1 else 0)
    count d h true e = h.counted.told (h.sent ∙ e) ∙ ap (λ x. if x then 1 else 0) h.counter
    count d h false e = h.counted.yet (h.sent ∙ e)
