-- ===== src/CongestionType/Tests.antt =====
-- A name that fits, and one of sixteen bytes.
use tcp_congestion_mininet.Common.{◌≡◌, refl, arith, some, none, [], ◌∷◌, ltb, if◌then◌else◌}
use tcp_congestion_mininet.Common.Lists.{replicate}
use tcp_congestion_mininet.Client.{congestion_optval, c_strlen}
use tcp_congestion_mininet.CongestionType.{set_congestion_type, strncpy, set_congestion_type_lem}

set_congestion_type_lem_example :
    set_congestion_type (98 ∷ 98 ∷ 114 ∷ [])
    ≡ (congestion_optval (98 ∷ 98 ∷ 114 ∷ []), (if ltb 3 16 then some 4 else none))
set_congestion_type_lem_example =
    set_congestion_type_lem (98 ∷ 98 ∷ 114 ∷ []) (omega arith, (omega arith, (omega arith, tt)))

no_terminator : (set_congestion_type (replicate 16 98)).1 ≡ none
unfolding set_congestion_type c_strlen strncpy
no_terminator = refl
