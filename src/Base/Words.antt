-- ===== src/Base/Words.antt =====
-- The 32-bit words of C: `size_t`, `uint32_t` and the bit pattern of `int` on i386. A flag word is
-- tested and changed one bit at a time: `k` is the position of the flag's only bit.
use Prim.Native.Nat.{ℕ, ◌+◌, ◌-◌, ◌/◌, ◌%◌, ◌^◌}
use mathlib.Core.Bool.{Bool}
use levos.Base.Tests.{◌==◌, if◌then◌else◌}

abbrev pub word : ℕ
word = 0x100000000

-- `a + b` and `a - b` on `uint32_t`
abbrev pub add32 : ℕ → ℕ → ℕ
add32 a b = (a + b) % 0x100000000

abbrev pub sub32 : ℕ → ℕ → ℕ
sub32 a b = (a + 0x100000000 - b) % 0x100000000

-- `-e` for an error number `e`, as a bit pattern
abbrev pub neg : ℕ → ℕ
neg e = 0x100000000 - e

-- `w & (1 << k)` as a test, `w | (1 << k)` and `w & ~(1 << k)`
abbrev pub test_bit : ℕ → ℕ → Bool
test_bit k w = w / 2 ^ k % 2 == 1

abbrev pub set_bit : ℕ → ℕ → ℕ
set_bit k w = if test_bit k w then w else w + 2 ^ k

abbrev pub clear_bit : ℕ → ℕ → ℕ
clear_bit k w = if test_bit k w then w - 2 ^ k else w
