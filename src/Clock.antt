-- ===== src/Clock.antt =====
-- base/proto_time.h and base/proto_time.cc: durations and instants as 64-bit signed microseconds, kept
-- as two's complement bit patterns, and the clocks. Where a sum, a difference or a product does not fit
-- int64_t the source's behaviour is undefined, and what is said here of it stands for nothing; the
-- theorems bound the clock so that all of them fit. TimeSleep, the differences of a time and a duration,
-- and the products with a double are left out.
pub mod Arithmetic
mod Tests
use tcp_congestion_mininet.Common.{
  ℕ, ◌+◌, ◌-◌, ◌*◌, ◌/◌, ◌%◌, ◌^◌, Bool, true, false, not, Option, none, some, ltb, ◌==◌,
  if◌then◌else◌,
}
use tcp_congestion_mininet.Common.Words.{u64_mod}

-- 2 ^ 63, the pattern of the least int64_t.
abbrev pub i64_min : ℕ
i64_min = 0x8000000000000000

-- `w / n` for a positive n: C truncates toward zero.
unfoldable pub div64 : ℕ → ℕ → ℕ
div64 w n = if ltb w i64_min then w / n else (u64_mod - (u64_mod - w) / n) % u64_mod

-- `a < b` on int64_t.
unfoldable pub less64 : ℕ → ℕ → Bool
less64 a b = ltb ((a + i64_min) % u64_mod) ((b + i64_min) % u64_mod)

pub record TimeDelta : Type 0 where
  pub time_offset : ℕ

abbrev pub infinite : TimeDelta
infinite = record { time_offset = i64_min - 1 }

abbrev pub from_seconds : ℕ → TimeDelta
from_seconds secs = record { time_offset = (secs * 1000 * 1000) % u64_mod }

unfoldable pub from_milliseconds : ℕ → TimeDelta
from_milliseconds ms = record { time_offset = (ms * 1000) % u64_mod }

abbrev pub from_microseconds : ℕ → TimeDelta
from_microseconds us = record { time_offset = us }

unfoldable pub to_seconds : TimeDelta → ℕ
to_seconds d = div64 (div64 d.time_offset 1000) 1000

unfoldable pub to_milliseconds : TimeDelta → ℕ
to_milliseconds d = div64 d.time_offset 1000

abbrev pub to_microseconds : TimeDelta → ℕ
to_microseconds d = d.time_offset

abbrev pub is_zero : TimeDelta → Bool
is_zero d = d.time_offset == 0

abbrev pub is_infinite : TimeDelta → Bool
is_infinite d = d.time_offset == infinite.time_offset

-- `lhs < rhs`, and the tests that the source makes from it.
unfoldable pub less : TimeDelta → TimeDelta → Bool
less a b = less64 a.time_offset b.time_offset

abbrev pub less_eq : TimeDelta → TimeDelta → Bool
less_eq a b = not (less b a)

-- `lhs >> rhs`, rounding down, as the compilers do.
unfoldable pub shift_right : TimeDelta → ℕ → TimeDelta
shift_right d k =
    let w = d.time_offset in
    record {
      time_offset =
          if ltb w i64_min then w / 2 ^ k else u64_mod - (u64_mod - w + (2 ^ k - 1)) / 2 ^ k;
    }

unfoldable pub add : TimeDelta → TimeDelta → TimeDelta
add a b = record { time_offset = (a.time_offset + b.time_offset) % u64_mod }

unfoldable pub subtract : TimeDelta → TimeDelta → TimeDelta
subtract a b = record { time_offset = (a.time_offset + u64_mod - b.time_offset) % u64_mod }

-- `lhs * rhs`, the int as its pattern in 64 bits.
unfoldable pub scale : TimeDelta → ℕ → TimeDelta
scale d k = record { time_offset = (d.time_offset * k) % u64_mod }

pub record ProtoTime : Type 0 where
  pub time : ℕ

abbrev pub zero_time : ProtoTime
zero_time = record { time = 0 }

abbrev pub is_initialized : ProtoTime → Bool
is_initialized t = not (t.time == 0)

unfoldable pub earlier : ProtoTime → ProtoTime → Bool
earlier a b = less64 a.time b.time

-- `lhs + rhs`, where it fits.
unfoldable pub later_by : ProtoTime → TimeDelta → ProtoTime
later_by t d = record { time = (t.time + d.time_offset) % u64_mod }

-- `lhs - rhs`, where it fits.
unfoldable pub between : ProtoTime → ProtoTime → TimeDelta
between a b = record { time_offset = (a.time + u64_mod - b.time) % u64_mod }

-- base_clock64, on the seconds and microseconds that gettimeofday answers; neither is negative.
unfoldable pub base_clock64 : ℕ → ℕ → ℕ
base_clock64 s u = (s * 1000 + u / 1000) % u64_mod

-- SystemClock::Now
unfoldable pub now : ℕ → ℕ → ProtoTime
now s u = later_by zero_time (from_milliseconds (base_clock64 s u))

-- TimeMillis and TimeMicro: `gclock` is what the clock of SetClockForTesting says, where one is set.
unfoldable pub time_millis : Option ProtoTime → ℕ → ℕ → ℕ
time_millis none s u = base_clock64 s u
time_millis (some t) s u = to_milliseconds (between t zero_time)

unfoldable pub time_micro : Option ProtoTime → ℕ → ℕ → ℕ
time_micro none s u = (base_clock64 s u * 1000) % u64_mod
time_micro (some t) s u = to_microseconds (between t zero_time)

-- TcpServer::getWallTime: milliseconds since the server was made.
unfoldable pub get_wall_time : ProtoTime → ProtoTime → ℕ
get_wall_time start_time t = to_milliseconds (between t start_time)
