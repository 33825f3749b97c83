-- ===== src/Transfer/Ending.antt =====
-- A run of the client program to its end.
use tcp_congestion_mininet.Common.{ℕ, suc, List, [], ◌∷◌}
use tcp_congestion_mininet.Transfer.System.{Connection}
use tcp_congestion_mininet.Transfer.Able.{IsAble}

abbrev pub AllAble : ℕ → ℕ → List Connection → Type 0
AllAble id total [] = Unit {0}
AllAble id total (s ∷ cs) = IsAble id total s × AllAble (suc id) total cs
