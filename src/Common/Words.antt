-- ===== src/Common/Words.antt =====
-- Machine integers: the moduli of the C types and their subtraction.
use Prim.Native.Nat.{ℕ, ◌+◌, ◌-◌, ◌%◌}

abbrev pub u16_mod : ℕ
u16_mod = 0x10000

abbrev pub u32_mod : ℕ
u32_mod = 0x100000000

abbrev pub u64_mod : ℕ
u64_mod = 0x10000000000000000

-- `a - b` on unsigned (and on uint32_t), for b below 2 ^ 32.
abbrev pub sub32 : ℕ → ℕ → ℕ
sub32 a b = (a + u32_mod - b) % u32_mod
