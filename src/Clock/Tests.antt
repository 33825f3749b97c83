-- ===== src/Clock/Tests.antt =====
-- Runs of base/proto_time.h and base/proto_time.cc.
use tcp_congestion_mininet.Common.{◌-◌, ◌≡◌, refl, arith, some, none}
use tcp_congestion_mininet.Clock.{now, time_millis, time_micro, div64}
use tcp_congestion_mininet.Clock.Arithmetic.{time_millis-now}

-- Minus 1500 microseconds are minus one millisecond.
toward_zero : div64 (0x10000000000000000 - 1500) 1000 ≡ 0xffffffffffffffff
unfolding div64
toward_zero = refl

time_millis-now_example :
    (time_millis (some (now 3 2500)) 3 2500 ≡ time_millis none 3 2500)
    × (time_micro (some (now 3 2500)) 3 2500 ≡ time_micro none 3 2500)
time_millis-now_example = time_millis-now 3 2500 (omega arith) (omega arith)
