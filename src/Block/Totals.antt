-- ===== src/Block/Totals.antt =====
-- What the client of block_client.cc has sent when its loop ends.
use tcp_congestion_mininet.Common.{
  ℕ, suc, ◌+◌, ◌-◌, ◌<◌, ◌≡◌, refl, ap, ◌∙◌, arith, Bool, true, false, Option, none, some, List, [],
  ◌∷◌, ◌==◌, min, if◌then◌else◌, if-elim, Bool-cases, inl, inr,
}
use tcp_congestion_mininet.Common.Lists.{length, take, length-append, length-take}
use tcp_congestion_mininet.Client.Header.{length-header_message}
use tcp_congestion_mininet.Block.{
  BlockClient, write_header, send_round, Exit, write_done, send_loop,
}

-- The buffer is whole.
pub record IsWhole (b : BlockClient) : Type 0 where
  pub size : length b.send_buff ≡ 1400

-- The failed writes of the rounds that the loop reaches.
unfoldable pub failures : List (Bool × Option ℕ) → BlockClient → ℕ
failures [] b = 0
failures ((running, none) ∷ rounds) b =
    let rest = failures rounds (send_round none b) in
    if running then (if b.byte_remain == 0 then 0 else suc rest) else 0
failures ((running, some n) ∷ rounds) b =
    let rest = failures rounds (send_round (some n) b) in
    if running then (if b.byte_remain == 0 then 0 else rest) else 0

-- The bytes that were sent and those that remain.
abbrev pub all_bytes : BlockClient → ℕ
all_bytes b = length b.stream + b.byte_remain

-- The header changes no count.
record Headed (b c : BlockClient) : Type 0 where
  whole : IsWhole c
  remain : c.byte_remain ≡ b.byte_remain
  stream : c.stream ≡ b.stream

write_header-Headed : (b : BlockClient) → IsWhole b → Headed b (write_header b)
unfolding write_header
write_header-Headed b v =
    if-elim (Headed b) b.first_packet
      (λ _. record {
        whole = record { size = length-header_message 12 104857600 };
        remain = refl;
        stream = refl;
      })
      (λ _. record { whole = v; remain = refl; stream = refl })

sent_round :
    (n : ℕ) (b : BlockClient)
    → IsWhole b
    → IsWhole (send_round (some n) b)
      × (all_bytes (send_round (some n) b) ≡ all_bytes b)
      × ((send_round (some n) b).byte_remain ≡ b.byte_remain - min n (min 1400 b.byte_remain))
unfolding send_round
sent_round n b v =
    let h = write_header-Headed b v in
    let c = write_header b in
    let ret = min n (min 1400 c.byte_remain) in
    (
      record { size = h.whole.size },
      omega (
        arith,
        length-append c.stream (take ret c.send_buff),
        length-take ret c.send_buff,
        h.whole.size,
        h.remain,
        ap length h.stream,
      ),
      omega (arith, h.remain),
    )

failed_round :
    (b : BlockClient)
    → IsWhole b
    → IsWhole (send_round none b) × (all_bytes (send_round none b) ≡ suc (all_bytes b))
unfolding send_round
failed_round b v =
    let h = write_header-Headed b v in
    (record { size = h.whole.size }, omega (arith, h.remain, ap length h.stream))

-- The test at the head of a round, on both sides of the count.
at_head :
    (done : Bool) (b : BlockClient) (x : Exit) (r : Exit × BlockClient) (n : ℕ)
    → all_bytes r.1 ≡ all_bytes b + n
    → let after : Exit × BlockClient = if done then (x, b) else r in
      all_bytes after.1 ≡ all_bytes b + (if done then 0 else n)
at_head true b x r n e = omega arith
at_head false b x r n e = e

-- However the loop ends, the bytes that were sent and those that remain are those there were, and one
-- more for every write that failed.
pub send_loop_lem :
    (rounds : List (Bool × Option ℕ)) (b : BlockClient)
    → IsWhole b
    → all_bytes (send_loop rounds b).1 ≡ all_bytes b + failures rounds b
unfolding send_loop failures
send_loop_lem [] b v = omega arith
send_loop_lem ((false, none) ∷ rounds) b v = omega arith
send_loop_lem ((false, some n) ∷ rounds) b v = omega arith
send_loop_lem ((true, none) ∷ rounds) b v =
    let (w, e) = failed_round b v in
    let c = send_round none b in
    at_head (b.byte_remain == 0) b write_done (send_loop rounds c) (suc (failures rounds c))
      (omega (arith, send_loop_lem rounds c w, e))
send_loop_lem ((true, some n) ∷ rounds) b v =
    let (w, e, _) = sent_round n b v in
    let c = send_round (some n) b in
    at_head (b.byte_remain == 0) b write_done (send_loop rounds c) (failures rounds c)
      (omega (arith, send_loop_lem rounds c w, e))

-- No signal comes, and every write takes something.
abbrev pub IsFlowing : List (Bool × Option ℕ) → Type 0
IsFlowing [] = Unit {0}
IsFlowing ((running, none) ∷ rounds) = ⊥
IsFlowing ((running, some n) ∷ rounds) = (running ≡ true) × (0 < n) × IsFlowing rounds

-- With more rounds than bytes that remain, no signal, and no write that fails, the loop ends by itself
-- and has sent all of them.
pub send_loop-write_done :
    (rounds : List (Bool × Option ℕ)) (b : BlockClient)
    → IsWhole b
    → IsFlowing rounds
    → b.byte_remain < length rounds
    → ((send_loop rounds b).0 ≡ write_done)
      × (length (send_loop rounds b).1.stream ≡ length b.stream + b.byte_remain)
unfolding send_loop
send_loop-write_done [] b v f h = absurd (omega arith)
send_loop-write_done ((running, none) ∷ rounds) b v f h = absurd f
send_loop-write_done ((running, some n) ∷ rounds) b v (run, takes, f) h =
    elim (Bool-cases (b.byte_remain == 0)) [
      | inl none_left ↦ rw run (rw none_left (refl, ground arith))
      | inr more ↦
          let (w, e, left) = sent_round n b v in
          let c = send_round (some n) b in
          let progress : c.byte_remain < b.byte_remain = ground (arith, left, takes, more) in
          let (exits, sent) = send_loop-write_done rounds c w f (omega arith) in
          rw run (rw more (exits, sent ∙ e))
    ]
