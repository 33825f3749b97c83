-- ===== src/Client/Progress.antt =====
-- The client of tcp/tcp_client.cc sends its message once, in order, and no more.
use tcp_congestion_mininet.Common.{
  ℕ, zero, suc, ◌+◌, ◌-◌, ◌%◌, ◌≤◌, ◌<◌, ◌≡◌, refl, ap, sym, subst, ◌∙◌, inl, inr, arith, true,
  false, not, List, [], ◌++◌, ◌==◌, min, Bool-cases,
}
use tcp_congestion_mininet.Common.Lists.{length, take, replicate, take-append}
use tcp_congestion_mininet.Common.Int.{pos, is_positive, is_zero}
use tcp_congestion_mininet.Socket.{Outcome, ok, aborted, ◌>>=◌, check, Wire}
use tcp_congestion_mininet.Client.{TcpClient, max_line}
use tcp_congestion_mininet.Client.Send.{
  write_packet_in_batch, get_batch_size, increase_write_bytes, header_message, write_batch,
  write_first, next_write_time,
}
use tcp_congestion_mininet.Client.Write.{
  Batch, Writes, write_packet_loop-Batch, write_message-Writes, replicate-add,
}
use tcp_congestion_mininet.Client.Header.{length-header_message}
use mathlib.Core.List.{append_assoc, append-nil}

-- The bytes that the client is to send: the first packet, and zeros up to the total.
abbrev pub message : TcpClient → List ℕ
message c = header_message c.client_id c.total_byte ++ replicate (c.total_byte - 1400) 0

-- The counters agree with the bytes on the wire.
pub record IsSending (c : TcpClient) : Type 0 where
  pub total_low : 1400 ≤ c.total_byte
  pub total_high : c.total_byte < 0x80000000
  pub within : c.send_byte ≤ c.total_byte
  pub before : c.first_sent ≡ false → (c.send_byte ≡ 0) × (c.wire.stream ≡ [])
  pub after :
      c.first_sent ≡ true
      → (1400 ≤ c.send_byte)
        × (c.wire.stream
            ≡ header_message c.client_id c.total_byte ++ replicate (c.send_byte - 1400) 0)

pub get_batch_size_lem :
    (c : TcpClient)
    → c.total_byte < 0x80000000
    → c.send_byte ≤ c.total_byte
    → get_batch_size c ≡ pos (min 14000 (c.total_byte - c.send_byte))
unfolding get_batch_size
get_batch_size_lem c h k = ground arith

pub not_zero : (n : ℕ) → 0 < n → is_zero (pos n) ≡ false
not_zero zero h = absurd (omega arith)
not_zero (suc n) h = refl

-- What a call of the timer leaves: nothing if the process aborts, and otherwise a client that has
-- sent some more of the same message.
abbrev pub Continues : TcpClient → Outcome TcpClient → Type 0
Continues c aborted = Unit {0}
Continues c (ok d) =
    IsSending d
    × (d.client_id ≡ c.client_id)
    × (d.total_byte ≡ c.total_byte)
    × (c.send_byte ≤ d.send_byte)

more_zeros :
    (h : List ℕ) (sent n : ℕ) (old new : List ℕ)
    → 1400 ≤ sent
    → old ≡ h ++ replicate (sent - 1400) 0
    → new ≡ old ++ replicate n 0
    → new ≡ h ++ replicate (sent + n - 1400) 0
more_zeros h sent n old new lo p q =
    q
    ∙ ap (λ x. x ++ replicate n 0) p
    ∙ append_assoc h _ _
    ∙ ap (◌++◌ h)
        (replicate-add (sent - 1400) n ∙ ap (λ k. replicate k (let z : ℕ = 0 in z)) (omega arith))

batch_done :
    (c : TcpClient) (w : Wire) (n t : ℕ)
    → IsSending c
    → c.first_sent ≡ true
    → t ≡ 0 + n
    → n ≤ c.total_byte - c.send_byte
    → w.stream ≡ c.wire.stream ++ replicate n 0
    → Continues c (ok (increase_write_bytes t (record c { wire = w })))
unfolding increase_write_bytes
batch_done c w n t v f sum le s =
    let (lo, str) = v.after f in
    let sent : (c.send_byte + t) % 0x100000000 ≡ c.send_byte + n =
      omega (arith, v.total_high, v.within) in
    rw sent (
      record {
        total_low = v.total_low;
        total_high = v.total_high;
        within = omega (arith, v.within);
        before = λ g. (cc);
        after = λ g. (
          omega arith,
          more_zeros (header_message c.client_id c.total_byte) c.send_byte n c.wire.stream w.stream
              lo str s,
        );
      },
      refl,
      refl,
      omega arith,
    )

write_batch-Continues :
    (c : TcpClient) → IsSending c → c.first_sent ≡ true → Continues c (write_batch c)
unfolding write_batch write_packet_in_batch
write_batch-Continues c v f =
    let n = min 14000 (c.total_byte - c.send_byte) in
    rw (get_batch_size_lem c v.total_high v.within) (go _ (write_packet_loop-Batch n n 0 c))
  where
    go :
        (r : Outcome (TcpClient × ℕ))
        → Batch (min 14000 (c.total_byte - c.send_byte)) 0 c r
        → Continues c (r >>= λ (d, write). ok (increase_write_bytes write d))
    go aborted b = tt
    go (ok (d, t)) (n, sum, le, s) =
        subst (λ x. Continues c (ok (increase_write_bytes t x))) (sym s.same)
          (batch_done c d.wire n t v f sum (omega arith) s.stream)

first_bytes :
    (h : List ℕ) (ret sum : ℕ) (old new : List ℕ)
    → ret ≡ 1400
    → sum % 0x100000000 ≡ 1400
    → length h ≡ 1400
    → old ≡ []
    → new ≡ old ++ take ret h
    → new ≡ h ++ replicate (sum % 0x100000000 - 1400) 0
first_bytes h ret sum old new p q size empty e =
    let none_more : sum % 0x100000000 - 1400 ≡ 0 = omega arith in
    let all_of_it : take ret h ≡ h =
      ap (λ k. take k h) (p ∙ sym size)
      ∙ ap (take (length h)) (sym (append-nil h))
      ∙ take-append h [] in
    rw none_more (e ∙ ap (λ x. x ++ take ret h) empty ∙ all_of_it ∙ sym (append-nil h))

Continues-trans :
    (c d : TcpClient) (r : Outcome TcpClient)
    → d.client_id ≡ c.client_id
    → d.total_byte ≡ c.total_byte
    → c.send_byte ≤ d.send_byte
    → Continues d r
    → Continues c r
Continues-trans c d aborted p q h k = tt
Continues-trans c d (ok e) p q h (v, id, total, le) = (v, id ∙ p, total ∙ q, omega arith)

header_done :
    (c : TcpClient) (w : Wire) (ret : ℕ)
    → IsSending c
    → c.first_sent ≡ false
    → ret ≡ 1400
    → w.stream ≡ c.wire.stream ++ take ret (header_message c.client_id c.total_byte)
    → Continues c (
        write_batch
          (record (increase_write_bytes ret (record c { wire = w })) { first_sent = true }))
header_done c w ret v f whole s =
    let d = record (increase_write_bytes ret (record c { wire = w })) { first_sent = true } in
    let (none_sent, empty) = v.before f in
    let h = header_message c.client_id c.total_byte in
    let sent : (c.send_byte + ret) % 0x100000000 ≡ 1400 = omega arith in
    unfold increase_write_bytes in
    Continues-trans c d (write_batch d) refl refl (omega arith) (
      write_batch-Continues d
        (record {
          total_low = v.total_low;
          total_high = v.total_high;
          within = omega (arith, v.total_low);
          before = λ g. (cc);
          after = λ g. (
            omega arith,
            first_bytes h ret (c.send_byte + ret) c.wire.stream w.stream whole sent
                (length-header_message c.client_id c.total_byte) empty s,
          );
        })
        refl)

-- The first packet: the process goes on only if the kernel takes all of it at once.
write_first-Continues :
    (c : TcpClient) → IsSending c → c.first_sent ≡ false → Continues c (write_first c)
unfolding write_first
write_first-Continues c v f =
    go _ (write_message-Writes (header_message c.client_id c.total_byte) c)
  where
    go :
        (r : Outcome (TcpClient × ℕ))
        → Writes (header_message c.client_id c.total_byte) c r
        → Continues c (
            r >>= λ (d, ret).
            check
              (ret == max_line)
              (write_batch (record (increase_write_bytes ret d) { first_sent = true })))
    go aborted w = tt
    go (ok (d, ret)) (le, s) = elim (Bool-cases (ret == max_line)) [
      | inr short ↦ rw short tt
      | inl whole ↦ rw whole (
          subst
            (λ x.
              Continues c (write_batch (record (increase_write_bytes ret x) { first_sent = true })))
            (sym s.same) (header_done c d.wire ret v f (ground arith) s.stream))
    ]

-- A call of the timer on a client whose counters agree with the wire: unless a CHECK aborts the
-- process, they agree afterwards, for the same message, and no byte is taken back.
pub next_write_time-Continues :
    (next : ℕ) (c : TcpClient)
    → IsSending c
    → Continues c (next_write_time next c >>= λ (d, _). ok d)
unfolding next_write_time
next_write_time-Continues next c v = elim (Bool-cases (not (is_positive c.sockfd))) [
  | inl closed ↦ rw closed (v, refl, refl, omega arith)
  | inr open_ ↦ elim (Bool-cases (is_zero (get_batch_size c))) [
    | inl done ↦ rw (open_, done) (v, refl, refl, omega arith)
    | inr more ↦ elim (Bool-cases c.first_sent) [
      | inl f ↦ rw (open_, more) (simp f (go (write_batch c) (write_batch-Continues c v f)))
      | inr f ↦ rw (open_, more) (simp f (go (write_first c) (write_first-Continues c v f)))
    ]
  ]
]
  where
    go :
        (r : Outcome TcpClient)
        → Continues c r
        → Continues c ((r >>= λ d. ok (d, next)) >>= λ (d, _). ok d)
    go aborted h = tt
    go (ok d) h = h
