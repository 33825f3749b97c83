-- ===== src/Transfer/Both.antt =====
-- The two programs together: what the server of echo_server.cc has counted when echo_client.cc ends.
use tcp_congestion_mininet.Common.{
  ℕ, suc, ◌+◌, ◌≤◌, ◌<◌, ◌≡◌, refl, ap, sym, arith, inl, inr, Bool, true, List, [], ◌∷◌,
}
use tcp_congestion_mininet.Common.Lists.{length, All}
use tcp_congestion_mininet.Common.Int.{pos}
use tcp_congestion_mininet.Peer.{Effect, TcpPeer}
use tcp_congestion_mininet.Peer.Counting.{done_count}
use tcp_congestion_mininet.Peer
use tcp_congestion_mininet.Server.{TcpServer}
use tcp_congestion_mininet.Server.Peers.{IsOwned}
use tcp_congestion_mininet.Server.Hosted.{apply_effects}
use tcp_congestion_mininet.Server.Calls.{apply_effects-Applied}
use tcp_congestion_mininet.Echo.{all_deactive, is_all_deactive, decrease_times}
use tcp_congestion_mininet.Echo.Program.{main_states, IsPlayed, is_all_deactive_lem}
use tcp_congestion_mininet.Transfer.System.{Connection, HasHeader}
use tcp_congestion_mininet.Transfer.Experiment.{
  calls_of, experiment, AllStart, AllComplete, main_states-AllComplete,
}

-- The first call of one of the peers, and the calls that remain.
pub data Took (e : Effect) : List (List Effect) → List (List Effect) → Type 0 where
  mine : {l : List Effect} {ls : List (List Effect)} → Took e ((e ∷ l) ∷ ls) (l ∷ ls)
  other : {l : List Effect} {ls ms : List (List Effect)} → Took e ls ms → Took e (l ∷ ls) (l ∷ ms)

-- The calls of all peers in one order, which is that of each peer for its own.
pub data Merged : List (List Effect) → List Effect → Type 0 where
  done : {ls : List (List Effect)} → All (λ l. l ≡ []) ls → Merged ls []
  next :
      {e : Effect} {es : List Effect} {ls ms : List (List Effect)}
      → Took e ls ms
      → Merged ms es
      → Merged ls (e ∷ es)

abbrev done_counts : List (List Effect) → ℕ
done_counts [] = 0
done_counts (l ∷ ls) = done_count l + done_counts ls

done_count-cons :
    (e : Effect) (l : List Effect) → done_count (e ∷ l) ≡ done_count (e ∷ []) + done_count l
done_count-cons e l = Peer.Counting.done_count-append (e ∷ []) l

Took-done_counts :
    {e : Effect} {ls ms : List (List Effect)}
    → Took e ls ms
    → done_counts ls ≡ done_count (e ∷ []) + done_counts ms
Took-done_counts {e} (mine {l}) = omega (arith, done_count-cons e l)
Took-done_counts (other {l} t) = omega (arith, Took-done_counts t)

none_count : (ls : List (List Effect)) → All (λ l. l ≡ []) ls → done_counts ls ≡ 0
none_count [] a = refl
none_count (l ∷ ls) (e, a) = omega (arith, ap done_count e, none_count ls a)

Merged-done_count :
    {ls : List (List Effect)} {es : List Effect} → Merged ls es → done_count es ≡ done_counts ls
Merged-done_count (done {ls} a) = sym (none_count ls a)
Merged-done_count (next {e} {es} t m) =
    omega (arith, done_count-cons e es, Took-done_counts t, Merged-done_count m)

-- The calls of the peers.
abbrev pub peer_calls : List Connection → List (List Effect)
peer_calls [] = []
peer_calls (s ∷ cs) = s.peer.effects ∷ peer_calls cs

AllComplete-done_counts :
    (id total : ℕ) (cs : List Connection)
    → AllComplete id total cs
    → done_counts (peer_calls cs) ≡ length cs
AllComplete-done_counts id total [] v = refl
AllComplete-done_counts id total (s ∷ cs) (v, w) =
    omega (arith, v.told_once, AllComplete-done_counts (suc id) total cs w)

-- Where the main loop of the client program, under the conditions under which it starts its
-- connections, and where on every connection the first read that brings bytes brings at least the
-- header's eight, ends by its counter: a server with a counter that does what the peers have
-- called in it, in any order that keeps each peer's own, calls Decrease once for every flow, so
-- that the counter of echo_server.cc for as many flows is at its end as well.
pub main_states-apply_effects :
    (id total flows : ℕ) (cs : List Connection) (rounds : List (Bool × List Connection))
    (s : TcpServer) (es : List Effect)
    → length cs ≡ flows
    → 0 < flows
    → id + flows ≤ 0x100000000
    → AllStart id total cs
    → IsPlayed (experiment HasHeader) flows rounds cs
    → s.has_counter ≡ true
    → IsOwned s
    → Merged (peer_calls (main_states calls_of flows rounds cs).1) es
    → (main_states calls_of flows rounds cs).0 ≡ all_deactive
    → ((apply_effects es s).decreased ≡ s.decreased + flows)
      × (is_all_deactive (decrease_times (apply_effects es s).decreased (pos flows)) ≡ true)
main_states-apply_effects id total flows cs rounds s es many some_ few v played counter owned merged
      ended =
    let a = apply_effects-Applied es s counter owned in
    let told : (apply_effects es s).decreased ≡ s.decreased + flows =
      elim (main_states-AllComplete id total flows cs many rounds some_ few v played) [
        | inl (x, all, complete) ↦ omega (
          arith,
          a.counted,
          Merged-done_count merged,
          AllComplete-done_counts id total _ complete,
          all,
        )
        | inr (not_all, less) ↦ absurd (not_all ended)
      ] in
    (
      told,
      elim (is_all_deactive_lem (apply_effects es s).decreased flows) [
        | inl (enough, e) ↦ e
        | inr (less, e) ↦ absurd (omega (arith, less, told))
      ],
    )
