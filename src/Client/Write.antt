-- ===== src/Client/Write.antt =====
-- What one run of the write loop of tcp/tcp_client.cc puts on the wire.
use tcp_congestion_mininet.Common.{
  ℕ, zero, suc, ◌+◌, ◌-◌, ◌≤◌, ◌≡◌, refl, ap, sym, subst, ◌∙◌, inl, inr, arith, true, false, List,
  [], ◌∷◌, ◌++◌, ◌==◌, if◌then◌else◌, min, Bool-cases,
}
use tcp_congestion_mininet.Common.Lists.{length, take, replicate, length-replicate}
use tcp_congestion_mininet.Common.Int.{is_positive}
use tcp_congestion_mininet.Socket.{
  Outcome, ok, aborted, ◌>>=◌, Wrote, accepts, would_block, breaks, Wire,
}
use tcp_congestion_mininet.Client.{TcpClient}
use tcp_congestion_mininet.Client.Send.{answer_write, write_message, write_packet_loop}
use mathlib.Core.List.{append_assoc, append-nil}

-- `d` is `c` with `bytes` more on the wire.
pub record Sent (bytes : List ℕ) (c : TcpClient) (d : TcpClient) : Type 0 where
  pub same : d ≡ record c { wire = d.wire }
  pub stream : d.wire.stream ≡ c.wire.stream ++ bytes

-- A write aborts on an error, and otherwise takes the first bytes, or none if it would block.
abbrev pub Writes : List ℕ → TcpClient → Outcome (TcpClient × ℕ) → Type 0
Writes msg c aborted = Unit {0}
Writes msg c (ok (d, n)) = (n ≤ length msg) × Sent (take n msg) c d

pub take-replicate : (n m : ℕ) → n ≤ m → take n (replicate m (let z : ℕ = 0 in z)) ≡ replicate n 0
take-replicate zero m h = refl
take-replicate (suc n) zero h = absurd (omega arith)
take-replicate (suc n) (suc m) h = ap (◌∷◌ 0) (take-replicate n m (omega arith))

pub replicate-add :
    (n m : ℕ) → replicate n (let z : ℕ = 0 in z) ++ replicate m 0 ≡ replicate (n + m) 0
replicate-add zero m = ap (λ k. replicate k 0) (omega arith)
replicate-add (suc n) m =
    let e : suc n + m ≡ suc (n + m) = omega arith in rw e (ap (◌∷◌ 0) (replicate-add n m))

none_taken : (c : TcpClient) → Sent [] c c
none_taken c = record { same = refl; stream = sym (append-nil c.wire.stream) }

abbrev put : Wire → TcpClient → TcpClient
put w x = record x { wire = w }

pub Sent-trans :
    (bs cs ds : List ℕ) (c d e : TcpClient)
    → Sent bs c d
    → Sent cs d e
    → bs ++ cs ≡ ds
    → Sent ds c e
Sent-trans bs cs ds c d e s t q = record {
  same = t.same ∙ ap (put e.wire) s.same;
  stream = t.stream ∙ ap (λ x. x ++ cs) s.stream ∙ append_assoc _ bs cs ∙ ap (◌++◌ c.wire.stream) q;
}

pub write_message-open :
    (msg : List ℕ) (c : TcpClient)
    → is_positive c.sockfd ≡ true
    → write_message msg c ≡ answer_write msg c c.wire.answers
unfolding write_message
write_message-open msg c p = rw p

pub write_message-closed :
    (msg : List ℕ) (c : TcpClient) → is_positive c.sockfd ≡ false → write_message msg c ≡ ok (c, 0)
unfolding write_message
write_message-closed msg c p = rw p

answer_write-Writes :
    (msg : List ℕ) (c : TcpClient) (l : List Wrote) → Writes msg c (answer_write msg c l)
unfolding answer_write
answer_write-Writes msg c [] = (omega arith, none_taken c)
answer_write-Writes msg c (accepts k ∷ l) = (omega arith, record { same = refl; stream = refl })
answer_write-Writes msg c (would_block ∷ l) =
    (omega arith, record { same = refl; stream = sym (append-nil c.wire.stream) })
answer_write-Writes msg c (breaks ∷ l) = tt

pub write_message-Writes : (msg : List ℕ) (c : TcpClient) → Writes msg c (write_message msg c)
write_message-Writes msg c = elim (Bool-cases (is_positive c.sockfd)) [
  | inl p ↦ rw (write_message-open msg c p) (answer_write-Writes msg c c.wire.answers)
  | inr p ↦ rw (write_message-closed msg c p) (omega arith, none_taken c)
]

-- What the batch loop did from `total` on: it wrote `n` zero bytes.
abbrev pub Batch : ℕ → ℕ → TcpClient → Outcome (TcpClient × ℕ) → Type 0
Batch remain total c aborted = Unit {0}
Batch remain total c (ok (d, t)) =
    (n : ℕ) × (t ≡ total + n) × (n ≤ remain) × Sent (replicate n 0) c d

-- The batch loop aborts, or puts as many zero bytes on the wire as it reports beyond `total`, at most
-- `remain`, and changes nothing else.
pub write_packet_loop-Batch :
    (fuel remain total : ℕ) (c : TcpClient)
    → Batch remain total c (write_packet_loop fuel remain total c)
unfolding write_packet_loop
write_packet_loop-Batch zero remain total c = (0, omega arith, omega arith, none_taken c)
write_packet_loop-Batch (suc fuel) remain total c = elim (Bool-cases (remain == 0)) [
  | inl done ↦ rw done (0, omega arith, omega arith, none_taken c)
  | inr more ↦ rw more (
      go _ (write_message-Writes (replicate (min remain 1400) 0) c)
        (λ ret d. write_packet_loop-Batch fuel (remain - ret) (total + ret) d))
]
  where
    extend :
        (d : TcpClient) (ret : ℕ) (r : Outcome (TcpClient × ℕ))
        → ret ≤ remain
        → Sent (replicate ret 0) c d
        → Batch (remain - ret) (total + ret) d r
        → Batch remain total c r
    extend d ret aborted h s b = tt
    extend d ret (ok (e, t)) h s (n, sum, le, more) = (
      ret + n,
      omega arith,
      omega arith,
      Sent-trans (replicate ret 0) (replicate n 0) _ c d e s more (replicate-add ret n),
    )

    go :
        (r : Outcome (TcpClient × ℕ))
        → Writes (replicate (min remain 1400) 0) c r
        → ((ret : ℕ) (d : TcpClient)
            → Batch
                (remain - ret)
                (total + ret)
                d
                (write_packet_loop fuel (remain - ret) (total + ret) d))
        → Batch remain total c (
            r >>= λ (d, ret).
            let rest = write_packet_loop fuel (remain - ret) (total + ret) d in
            if ret == 0 then ok (d, total) else rest)
    go aborted w ih = tt
    go (ok (d, ret)) (le, s) ih =
        let few : ret ≤ min remain 1400 =
          omega (arith, length-replicate {0} (min remain 1400) (let z : ℕ = 0 in z)) in
        let zeros : Sent (replicate ret 0) c d =
          subst (λ bs. Sent bs c d) (take-replicate ret (min remain 1400) few) s in
        elim (Bool-cases (ret == 0)) [
          | inl blocked ↦ rw blocked (
            0,
            omega arith,
            omega arith,
            subst (λ k. Sent (replicate k 0) c d) {y = 0} (ground arith) zeros,
          )
          | inr some_taken ↦ rw some_taken (extend d ret _ (omega arith) zeros (ih ret d))
        ]
