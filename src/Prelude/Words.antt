-- ===== src/Prelude/Words.antt =====
-- Fixed-width words as native numbers: a w-bit result is taken modulo 2 ^ w.
use Prim.Native.Nat.{ℕ, ◌+◌, ◌-◌, ◌%◌}
use mathlib.Core.Bool.{Bool}
use canshift_firmware.Prelude.Tests.{ltb}

abbrev pub u8 : ℕ → ℕ
u8 n = n % 256

abbrev pub u16 : ℕ → ℕ
u16 n = n % 65536

abbrev pub u32 : ℕ → ℕ
u32 n = n % 4294967296

abbrev pub add32 : ℕ → ℕ → ℕ
add32 a b = u32 (a + b)

-- `a - b` on `uint32_t`, for operands in range.
abbrev pub sub32 : ℕ → ℕ → ℕ
sub32 a b = u32 (a + 4294967296 - b)

-- `static_cast<int32_t>(a - b) < 0`: the difference has its top bit set.
abbrev pub before32 : ℕ → ℕ → Bool
before32 a b = ltb 2147483647 (sub32 a b)
