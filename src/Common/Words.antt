-- ===== src/Common/Words.antt =====
-- Machine words as native numbers below the modulus, with the two's complement reading of an int.
use Prim.Native.Nat.{ℕ, ◌+◌, ◌-◌, ◌*◌, ◌/◌, ◌%◌, ◌^◌, ◌<◌}
use mathlib.Core.Bool.{Bool}
use vmir.Common.Tests.{leb}

abbrev pub IsU32 : ℕ → Type 0
IsU32 w = w < 2 ^ 32

-- `a <= b` on two ints given by their bit patterns.
abbrev pub leb_s32 : ℕ → ℕ → Bool
leb_s32 a b = leb ((a + 2 ^ 31) % 2 ^ 32) ((b + 2 ^ 31) % 2 ^ 32)

-- `a + b` and `a - b` on 32-bit words.
abbrev pub add32 : ℕ → ℕ → ℕ
add32 a b = (a + b) % 2 ^ 32

abbrev pub sub32 : ℕ → ℕ → ℕ
sub32 a b = (a + 2 ^ 32 - b) % 2 ^ 32

-- `VMIR_ALIGN(a, 16)` on a 32-bit word: `((a) + 16 - 1) & ~15` clears the low four bits.
abbrev pub align32_16 : ℕ → ℕ
align32_16 a = (a + 15) % 2 ^ 32 / 16 * 16
