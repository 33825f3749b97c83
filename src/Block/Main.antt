-- ===== src/Block/Main.antt =====
-- main of block_client.cc: the set-up of the socket, the writes, the wait for the reply and the exit code.
use tcp_congestion_mininet.Common.{
  ℕ, ◌+◌, ◌≡◌, refl, arith, Bool, true, false, inl, inr, ◌⊎◌, ◌==◌, Option, List, [], ◌∷◌,
  if◌then◌else◌, if-elim, Bool-cases,
}
use tcp_congestion_mininet.Common.Int.{ℤ, is_negative, is_positive}
use tcp_congestion_mininet.Common.Lists.{length, length-replicate}
use tcp_congestion_mininet.Block.{
  BlockClient, new_block_client, total_send, Exit, signalled, write_done, still_running, send_round,
  send_loop,
}
use tcp_congestion_mininet.Block.Totals.{IsWhole, failures, all_bytes, send_loop_lem}

-- What `socket` returns, whether inet_pton takes the two addresses, and whether `connect` succeeds.
pub record Network : Type 0 where
  pub sockfd : ℤ
  pub local_parses : Bool
  pub host_parses : Bool
  pub connects : Bool

-- The exit code, whether the socket was closed, and the variables at the end; or the program still runs.
pub data Result : Type 0 where
  exited : ℕ → Bool → BlockClient → Result
  running : BlockClient → Result

-- The loop of reads, which only data ends: whether any came.
unfoldable pub wait_reply : List ℤ → Bool
wait_reply [] = false
wait_reply (n ∷ reads) = if is_positive n then true else wait_reply reads

-- From the loop of writes on.
unfoldable pub transfer : List (Bool × Option ℕ) → List ℤ → Result
transfer rounds reads =
    let (x, b) = send_loop rounds new_block_client in
    elim x [
      | still_running ↦ running b
      | signalled ↦ if wait_reply reads then exited 0 true b else running b
      | write_done ↦ if wait_reply reads then exited 0 true b else running b
    ]

unfoldable pub main : Network → List (Bool × Option ℕ) → List ℤ → Result
main k rounds reads =
    if is_negative k.sockfd
    then exited 1 false new_block_client
    else if k.local_parses
    then (if k.host_parses
        then (if k.connects then transfer rounds reads else exited 1 false new_block_client)
        else exited 1 false new_block_client)
    else exited 0 false new_block_client

-- A signal came before one of the rounds.
abbrev pub IsInterrupted : List (Bool × Option ℕ) → Type 0
IsInterrupted [] = ⊥
IsInterrupted ((goes_on, answer) ∷ rounds) = (goes_on ≡ false) ⊎ IsInterrupted rounds

-- What is so when the program exits.
abbrev pub Left : List (Bool × Option ℕ) → Result → Type 0
Left rounds (running b) = Unit {0}
Left rounds (exited code false b) = (b.stream ≡ []) × (b.byte_remain ≡ total_send)
Left rounds (exited code true b) =
    (code ≡ 0)
    × (length b.stream + b.byte_remain ≡ total_send + failures rounds new_block_client)
    × ((b.byte_remain ≡ 0) ⊎ IsInterrupted rounds)

send_loop-why :
    (rounds : List (Bool × Option ℕ)) (b : BlockClient)
    → let (x, c) = send_loop rounds b in
      (x ≡ still_running) ⊎ ((c.byte_remain ≡ 0) ⊎ IsInterrupted rounds)
unfolding send_loop
send_loop-why [] b = inl refl
send_loop-why ((false, answer) ∷ rounds) b = inr (inr (inl refl))
send_loop-why ((true, answer) ∷ rounds) b = elim (Bool-cases (b.byte_remain == 0)) [
  | inl done ↦ rw done (inr (inl (ground (arith, done))))
  | inr more ↦ rw more (elim (send_loop-why rounds (send_round answer b)) [
    | inl x ↦ inl x
    | inr (inl e) ↦ inr (inl e)
    | inr (inr i) ↦ inr (inr (inr i))
  ])
]

new-IsWhole : IsWhole new_block_client
new-IsWhole = record { size = length-replicate 1400 (let z : ℕ = 0 in z) }

transfer-Left :
    (rounds : List (Bool × Option ℕ)) (reads : List ℤ) → Left rounds (transfer rounds reads)
unfolding transfer
transfer-Left rounds reads =
    go (send_loop rounds new_block_client).0 (send_loop rounds new_block_client).1
      (send_loop-why rounds new_block_client) (send_loop_lem rounds new_block_client new-IsWhole)
  where
    go :
        (x : Exit) (b : BlockClient)
        → (x ≡ still_running) ⊎ ((b.byte_remain ≡ 0) ⊎ IsInterrupted rounds)
        → all_bytes b ≡ total_send + failures rounds new_block_client
        → Left rounds (elim x [
          | still_running ↦ running b
          | signalled ↦ if wait_reply reads then exited 0 true b else running b
          | write_done ↦ if wait_reply reads then exited 0 true b else running b
        ])
    go still_running b why e = tt
    go signalled b (inl q) e = absurd (cc q)
    go signalled b (inr why) e =
        if-elim (Left rounds) (wait_reply reads) (λ _. (refl, e, why)) (λ _. tt)
    go write_done b (inl q) e = absurd (cc q)
    go write_done b (inr why) e =
        if-elim (Left rounds) (wait_reply reads) (λ _. (refl, e, why)) (λ _. tt)

-- Wherever the program exits, for any answers of the kernel: either it has sent nothing and
-- leaves its socket as it is, or it exits with code 0 after closing the socket, the bytes sent
-- and those that remain are the total, and one more for each write that failed, and none remains
-- unless a signal came.
pub main-Left :
    (k : Network) (rounds : List (Bool × Option ℕ)) (reads : List ℤ)
    → Left rounds (main k rounds reads)
unfolding main
main-Left k rounds reads =
    if-elim (Left rounds) (is_negative k.sockfd) (λ _. (refl, refl))
      (λ _.
        if-elim (Left rounds) k.local_parses
          (λ _.
            if-elim (Left rounds) k.host_parses
              (λ _.
                if-elim (Left rounds) k.connects (λ _. transfer-Left rounds reads)
                  (λ _. (refl, refl)))
              (λ _. (refl, refl)))
          (λ _. (refl, refl)))
