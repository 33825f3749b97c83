-- ===== src/Client/Answers.antt =====
-- The write loop of tcp/tcp_client.cc under a kernel that never breaks the connection, and under one
-- that takes something of every write.
use tcp_congestion_mininet.Common.{
  ℕ, zero, suc, ◌+◌, ◌-◌, ◌≤◌, ◌<◌, ◌≡◌, refl, ap, ◌∙◌, arith, true, List, [], ◌∷◌, ◌==◌, if-elim,
  min,
}
use tcp_congestion_mininet.Common.Lists.{length, replicate, length-replicate}
use tcp_congestion_mininet.Common.Int.{is_positive}
use tcp_congestion_mininet.Socket.{
  Returns, Returns-bind, Returns-map, Wrote, accepts, would_block, breaks, IsUnbroken, IsAccepting,
}
use tcp_congestion_mininet.Client.{TcpClient}
use tcp_congestion_mininet.Client.Send.{answer_write, write_message, write_packet_loop}
use tcp_congestion_mininet.Client.Write.{write_message-open}

-- What is left of the client after a write.
abbrev Unbroken : TcpClient × ℕ → Type 0
Unbroken (d, n) = IsUnbroken d.wire.answers

answer_write-Unbroken :
    (msg : List ℕ) (c : TcpClient) (l : List Wrote)
    → IsUnbroken c.wire.answers
    → IsUnbroken l
    → Returns Unbroken (answer_write msg c l)
unfolding answer_write
answer_write-Unbroken msg c [] v u = v
answer_write-Unbroken msg c (accepts k ∷ l) v u = u
answer_write-Unbroken msg c (would_block ∷ l) v u = u
answer_write-Unbroken msg c (breaks ∷ l) v u = u

pub write_message-Unbroken :
    (msg : List ℕ) (c : TcpClient)
    → IsUnbroken c.wire.answers
    → Returns Unbroken (write_message msg c)
unfolding write_message
write_message-Unbroken msg c u =
    if-elim (Returns Unbroken) (is_positive c.sockfd)
      (λ _. answer_write-Unbroken msg c c.wire.answers u u) (λ _. u)

-- Without an error among the answers the batch loop returns.
pub write_packet_loop-Unbroken :
    (fuel remain total : ℕ) (c : TcpClient)
    → IsUnbroken c.wire.answers
    → Returns Unbroken (write_packet_loop fuel remain total c)
unfolding write_packet_loop
write_packet_loop-Unbroken zero remain total c u = u
write_packet_loop-Unbroken (suc fuel) remain total c u =
    if-elim (Returns Unbroken) (remain == 0) (λ _. u)
      (λ _.
        Returns-bind Unbroken Unbroken (write_message (replicate (min remain 1400) 0) c) _
          (write_message-Unbroken (replicate (min remain 1400) 0) c u)
          (λ (d, ret) w.
            if-elim (Returns Unbroken) (ret == 0) (λ _. w)
              (λ _. write_packet_loop-Unbroken fuel (remain - ret) (total + ret) d w)))

-- What the loop did of `remain` bytes: all of it, for at most one answer each.
pub record TookAll (remain total : ℕ) (c : TcpClient) (r : TcpClient × ℕ) : Type 0 where
  pub whole : r.1 ≡ total + remain
  pub accepting : IsAccepting r.0.wire.answers
  pub used : length c.wire.answers ≤ length r.0.wire.answers + remain

-- What a write of `len` bytes did under such a kernel.
record TookSome (len : ℕ) (c : TcpClient) (r : TcpClient × ℕ) : Type 0 where
  some_taken : 0 < r.1
  within : r.1 ≤ len
  socket : r.0.sockfd ≡ c.sockfd
  accepting : IsAccepting r.0.wire.answers
  used : length c.wire.answers ≤ length r.0.wire.answers + 1

answer_write-TookSome :
    (msg : List ℕ) (c : TcpClient) (l : List Wrote)
    → l ≡ c.wire.answers
    → IsAccepting l
    → 0 < length l
    → 0 < length msg
    → Returns (TookSome (length msg) c) (answer_write msg c l)
unfolding answer_write
answer_write-TookSome msg c [] e a h k = absurd (omega arith)
answer_write-TookSome msg c (accepts n ∷ l) e a h k = record {
  some_taken = omega arith;
  within = omega arith;
  socket = refl;
  accepting = a;
  used = omega (arith, ap length e);
}
answer_write-TookSome msg c (would_block ∷ l) e a h k = absurd a
answer_write-TookSome msg c (breaks ∷ l) e a h k = absurd a

write_message-TookSome :
    (msg : List ℕ) (c : TcpClient)
    → is_positive c.sockfd ≡ true
    → IsAccepting c.wire.answers
    → 0 < length c.wire.answers
    → 0 < length msg
    → Returns (TookSome (length msg) c) (write_message msg c)
write_message-TookSome msg c open_ a h k =
    rw (write_message-open msg c open_) (answer_write-TookSome msg c c.wire.answers refl a h k)

-- A kernel with an answer for each byte takes the whole batch.
pub write_packet_loop-TookAll :
    (fuel remain total : ℕ) (c : TcpClient)
    → remain ≤ fuel
    → is_positive c.sockfd ≡ true
    → IsAccepting c.wire.answers
    → remain ≤ length c.wire.answers
    → Returns (TookAll remain total c) (write_packet_loop fuel remain total c)
unfolding write_packet_loop
write_packet_loop-TookAll zero remain total c f open_ a h = record {
  whole = omega arith;
  accepting = a;
  used = omega arith;
}
write_packet_loop-TookAll (suc fuel) remain total c f open_ a h =
    let len = length (replicate (min remain 1400) (let z : ℕ = 0 in z)) in
    let size : len ≡ min remain 1400 =
      length-replicate {0} (min remain 1400) (let z : ℕ = 0 in z) in
    if-elim (Returns (TookAll remain total c)) (remain == 0)
      (λ none_left. record { whole = ground arith; accepting = a; used = omega arith })
      (λ more.
        let some_left : 0 < remain = ground arith in
        Returns-bind (TookSome len c) (TookAll remain total c)
          (write_message (replicate (min remain 1400) 0) c) _
          (write_message-TookSome (replicate (min remain 1400) 0) c open_ a (omega arith)
            (omega (arith, size)))
          (λ (d, ret) w.
            if-elim (Returns (TookAll remain total c)) (ret == 0)
              (λ none_taken. absurd (ground (arith, w.some_taken)))
              (λ _.
                Returns-map (TookAll (remain - ret) (total + ret) d) (TookAll remain total c)
                  (write_packet_loop fuel (remain - ret) (total + ret) d)
                  (λ r t. record {
                    whole = omega (arith, t.whole, w.within, size);
                    accepting = t.accepting;
                    used = omega (arith, t.used, w.used, w.some_taken, w.within, size);
                  })
                  (write_packet_loop-TookAll fuel (remain - ret) (total + ret) d
                    (omega (arith, w.some_taken)) (ap is_positive w.socket ∙ open_) w.accepting
                    (omega (arith, w.used, w.some_taken))))))
