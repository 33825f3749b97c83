-- ===== src/Block/Tests.antt =====
-- Runs of block_client.cc with few bytes left.
use tcp_congestion_mininet.Common.{
  ℕ, ◌+◌, ◌≡◌, refl, arith, Bool, true, Option, none, some, List, [], ◌∷◌,
}
use tcp_congestion_mininet.Common.Lists.{length, replicate, length-replicate}
use tcp_congestion_mininet.Block.{BlockClient, send_loop, write_done}
use tcp_congestion_mininet.Common.{false}
use tcp_congestion_mininet.Common.Int.{pos, negsuc}
use tcp_congestion_mininet.Block.Main.{Network, main, Left, main-Left}
use tcp_congestion_mininet.Block.Totals.{IsWhole, send_loop-write_done}

abbrev client : BlockClient
client = record { byte_remain = 3; first_packet = true; send_buff = replicate 1400 0; stream = [] }

client-IsWhole : IsWhole client
client-IsWhole = record { size = length-replicate 1400 (let z : ℕ = 0 in z) }

abbrev rounds : List (Bool × Option ℕ)
rounds = (true, some 2) ∷ (true, none) ∷ (true, some 5) ∷ (true, some 1) ∷ []

abbrev good_rounds : List (Bool × Option ℕ)
good_rounds = (true, some 2) ∷ (true, some 2) ∷ (true, some 1) ∷ (true, some 1) ∷ []

send_loop-write_done_example :
    ((send_loop good_rounds client).0 ≡ write_done)
    × (length (send_loop good_rounds client).1.stream ≡ length client.stream + client.byte_remain)
send_loop-write_done_example =
    send_loop-write_done good_rounds client client-IsWhole
      (refl, omega arith, (refl, omega arith, (refl, omega arith, (refl, omega arith, tt))))
      (omega arith)

-- A signal comes after two writes, of which one fails; the second read brings the reply.
abbrev network : Network
network = record { sockfd = pos 3; local_parses = true; host_parses = true; connects = true }

abbrev some_rounds : List (Bool × Option ℕ)
some_rounds = (true, some 9) ∷ (true, none) ∷ (false, none) ∷ []

main-Left_example : Left some_rounds (main network some_rounds (negsuc 0 ∷ pos 14 ∷ []))
main-Left_example = main-Left network some_rounds (negsuc 0 ∷ pos 14 ∷ [])
