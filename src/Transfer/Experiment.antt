-- ===== src/Transfer/Experiment.antt =====
-- main of echo_client.cc over all of its connections, of which any may move next.
use tcp_congestion_mininet.Common.{
  ℕ, suc, ◌+◌, ◌≤◌, ◌<◌, ◌≡◌, ◌≢◌, refl, ap, ◌∙◌, arith, inl, inr, ◌⊎◌, Bool, List, [], ◌∷◌,
  Bool-cases,
}
use tcp_congestion_mininet.Common.Lists.{length}
use tcp_congestion_mininet.Common.Int.{ℤ}
use tcp_congestion_mininet.Socket.{Wrote}
use tcp_congestion_mininet.Client.{TcpClient}
use tcp_congestion_mininet.Client.Quiet.{decreases}
use tcp_congestion_mininet.Client.Deactive.{IsCounted}
use tcp_congestion_mininet.Echo.{Host, Exit, all_deactive, total_send}
use tcp_congestion_mininet.Echo.Program.{Program, main_states, IsPlayed, main_states-Ended}
use tcp_congestion_mininet.Transfer.System.{Connection, HasHeader, Step, start}
use tcp_congestion_mininet.Transfer.Invariant.{IsConnection, Step-IsConnection}
use tcp_congestion_mininet.Transfer.Safety.{
  IsStart, IsStart-IsConnection, IsComplete, IsConnection-IsComplete, at_most_once, start-IsStart,
}

-- One connection moves.
pub data Turn (First : List (List ℕ) → Type 0) : List Connection → List Connection → Type 0 where
  mine : {s t : Connection} {cs : List Connection} → Step First s t → Turn First (s ∷ cs) (t ∷ cs)
  other :
      {s : Connection} {cs ds : List Connection} → Turn First cs ds → Turn First (s ∷ cs) (s ∷ ds)

-- What happens between two tests of the main loop.
pub data Turns (First : List (List ℕ) → Type 0) (cs : List Connection)
    : List Connection → Type 0 where
  over : Turns First cs cs
  more : {ds es : List Connection} → Turns First cs ds → Turn First ds es → Turns First cs es

-- The calls of Decrease, by all clients.
unfoldable pub calls_of : List Connection → ℕ
calls_of [] = 0
calls_of (s ∷ cs) = decreases s.client.effects + calls_of cs

abbrev pub experiment : (List (List ℕ) → Type 0) → Program (List Connection)
experiment First = record { calls = calls_of; LoopOnce = Turns First }

-- The connections, with their clients' numbers from `id` on.
abbrev pub AllStart : ℕ → ℕ → List Connection → Type 0
AllStart id total [] = Unit {0}
AllStart id total (s ∷ cs) = IsStart id total s × AllStart (suc id) total cs

abbrev pub AllComplete : ℕ → ℕ → List Connection → Type 0
AllComplete id total [] = Unit {0}
AllComplete id total (s ∷ cs) = IsComplete id total s × AllComplete (suc id) total cs

abbrev AllConnection : ℕ → ℕ → List Connection → Type 0
AllConnection id total [] = Unit {0}
AllConnection id total (s ∷ cs) = IsConnection id total s × AllConnection (suc id) total cs

AllStart-AllConnection :
    (id total : ℕ) (cs : List Connection) → AllStart id total cs → AllConnection id total cs
AllStart-AllConnection id total [] v = tt
AllStart-AllConnection id total (s ∷ cs) (v, w) =
    (IsStart-IsConnection id total s v, AllStart-AllConnection (suc id) total cs w)

Turn-length :
    {First : List (List ℕ) → Type 0} {cs ds : List Connection}
    → Turn First cs ds
    → length ds ≡ length cs
Turn-length (mine step) = refl
Turn-length (other turn) = ap suc (Turn-length turn)

Turn-AllConnection :
    (id total : ℕ) {cs ds : List Connection}
    → id + length cs ≤ 0x100000000
    → Turn HasHeader cs ds
    → AllConnection id total cs
    → AllConnection id total ds
Turn-AllConnection id total h (mine step) (v, w) =
    (Step-IsConnection id total (omega arith) step v, w)
Turn-AllConnection id total h (other turn) (v, w) =
    (v, Turn-AllConnection (suc id) total (omega arith) turn w)

-- So many connections, with what holds of each.
record IsFlows (id total n : ℕ) (cs : List Connection) : Type 0 where
  many : length cs ≡ n
  each : AllConnection id total cs

Turns-IsFlows :
    (id total n : ℕ) {cs ds : List Connection}
    → id + n ≤ 0x100000000
    → Turns HasHeader cs ds
    → IsFlows id total n cs
    → IsFlows id total n ds
Turns-IsFlows id total n h over v = v
Turns-IsFlows id total n h (more turns turn) v =
    let w = Turns-IsFlows id total n h turns v in
    record {
      many = Turn-length turn ∙ w.many;
      each = Turn-AllConnection id total (omega (arith, w.many)) turn w.each;
    }

called_once : (c : TcpClient) → IsCounted c → decreases c.effects ≤ 1
called_once c v = elim (Bool-cases c.deactive_sent) [
  | inl t ↦ at_most_once c v t
  | inr f ↦ omega (arith, v.yet f)
]

calls_of-le :
    (id total : ℕ) (cs : List Connection) → AllConnection id total cs → calls_of cs ≤ length cs
unfolding calls_of
calls_of-le id total [] v = omega arith
calls_of-le id total (s ∷ cs) (v, w) =
    omega (arith, called_once s.client v.client.counted, calls_of-le (suc id) total cs w)

-- As many calls as connections: every connection made its call.
calls_of-AllComplete :
    (id total : ℕ) (cs : List Connection)
    → AllConnection id total cs
    → length cs ≤ calls_of cs
    → AllComplete id total cs
unfolding calls_of
calls_of-AllComplete id total [] v h = tt
calls_of-AllComplete id total (s ∷ cs) (v, w) h =
    let once = called_once s.client v.client.counted in
    let rest = calls_of-le (suc id) total cs w in
    (
      IsConnection-IsComplete id total s v (omega arith),
      calls_of-AllComplete (suc id) total cs w (omega arith),
    )

AllStart-calls_of : (id total : ℕ) (cs : List Connection) → AllStart id total cs → calls_of cs ≡ 0
unfolding calls_of
AllStart-calls_of id total [] v = refl
AllStart-calls_of id total (s ∷ cs) (v, w) =
    omega (arith, v.calls, AllStart-calls_of (suc id) total cs w)

-- Where every flow is one of the connections.
module _ (id total flows : ℕ) (cs : List Connection) (many : length cs ≡ flows) where
  -- However the clients, the server's peers and the kernel move, where on every connection the
  -- first read that brings bytes brings at least the header's eight, from connections with
  -- nothing sent on, with as many flows as connections, at least one, and client numbers below 2
  -- ^ 32: where the main loop of the client program ends by its counter, then there are as many
  -- connections as flows, and on each the client has sent its whole message, the peer has read
  -- and counted all of it, the server was told once and Decrease was called once; otherwise,
  -- there were fewer calls of Decrease than flows.
  pub main_states-AllComplete :
      (rounds : List (Bool × List Connection))
      → 0 < flows
      → id + flows ≤ 0x100000000
      → AllStart id total cs
      → IsPlayed (experiment HasHeader) flows rounds cs
      → let (x, ds) = main_states calls_of flows rounds cs in
        ((x ≡ all_deactive) × (length ds ≡ flows) × AllComplete id total ds)
        ⊎ ((x ≢ all_deactive) × (calls_of ds < flows))
  main_states-AllComplete rounds some_ few v played =
      let none_yet = AllStart-calls_of id total cs v in
      let e =
        main_states-Ended (experiment HasHeader) flows (IsFlows id total flows)
          (record { keeps = λ turns w. Turns-IsFlows id total flows few turns w }) rounds cs
          (record { many = many; each = AllStart-AllConnection id total cs v })
          (omega (arith, none_yet)) played in
      elim e.counted [
        | inl (x, all) ↦ inl (
          x,
          e.good.many,
          calls_of-AllComplete id total _ e.good.each (omega (arith, all, e.good.many)),
        )
        | inr (x, less) ↦ inr (x, less)
      ]

-- The connections that the program's loop over its clients starts, each with the server's answers.
unfoldable pub start_all : List ℕ → ℕ → List (Host × ℤ × List Wrote) → List Connection
start_all cc id [] = []
start_all cc id ((h, fd, answers) ∷ hosts) = start cc id h fd answers ∷ start_all cc (suc id) hosts

-- main, with its flags, and what its connections do in each round.
unfoldable pub main :
    List ℕ
    → ℕ
    → List (Host × ℤ × List Wrote)
    → List (Bool × List Connection)
    → Exit × List Connection
main cc id hosts rounds = main_states calls_of (length hosts) rounds (start_all cc id hosts)

start_all-AllStart :
    (cc : List ℕ) (id : ℕ) (hosts : List (Host × ℤ × List Wrote))
    → AllStart id total_send (start_all cc id hosts)
      × (length (start_all cc id hosts) ≡ length hosts)
unfolding start_all
start_all-AllStart cc id [] = (tt, refl)
start_all-AllStart cc id ((h, fd, answers) ∷ hosts) =
    let (v, e) = start_all-AllStart cc (suc id) hosts in
    ((start-IsStart cc id h fd answers, v), ap suc e)

-- The main of echo_client.cc with at least one flow and client numbers below 2 ^ 32, whatever
-- happens on its connections as long as the first read of each that brings bytes brings at least
-- the header's eight: where it ends by its counter, then there are as many connections as flows,
-- and on each the 60 MiB were sent, read and counted, the server was told once and Decrease was
-- called once; otherwise, there were fewer calls of Decrease than flows.
pub main-AllComplete :
    (cc : List ℕ) (id : ℕ) (hosts : List (Host × ℤ × List Wrote))
    (rounds : List (Bool × List Connection))
    → 0 < length hosts
    → id + length hosts ≤ 0x100000000
    → IsPlayed (experiment HasHeader) (length hosts) rounds (start_all cc id hosts)
    → let (x, ds) = main cc id hosts rounds in
      ((x ≡ all_deactive) × (length ds ≡ length hosts) × AllComplete id total_send ds)
      ⊎ ((x ≢ all_deactive) × (calls_of ds < length hosts))
unfolding main
main-AllComplete cc id hosts rounds some_ few played =
    let (v, e) = start_all-AllStart cc id hosts in
    main_states-AllComplete id total_send (length hosts) (start_all cc id hosts) e rounds some_ few
      v played
