-- ===== src/Base/Word.antt =====
-- C integers as bit patterns. `unsigned long` and `long` are numbers below 2 ^ 64, `unsigned` and
-- `int` numbers below 2 ^ 32, both in two's complement. A shift takes its amount modulo the width,
-- as the target's shift instructions do; C leaves a larger amount undefined.
use Prim.Native.Nat.{ℕ, ◌+◌, ◌-◌, ◌*◌, ◌/◌, ◌%◌, ◌^◌}
use mathlib.Core.Bool.{Bool}
use smolcc.Base.Tests.{ltb, if◌then◌else◌}

-- ULONG_MAX + 1, LONG_MAX + 1, UINT_MAX + 1 and INT_MAX + 1.
abbrev pub word64 : ℕ
word64 = 0x1_0000_0000_0000_0000

abbrev pub half64 : ℕ
half64 = 0x8000_0000_0000_0000

abbrev pub word32 : ℕ
word32 = 0x1_0000_0000

abbrev pub half32 : ℕ
half32 = 0x8000_0000

-- The sign of a `long`.
abbrev pub is_neg64 : ℕ → Bool
is_neg64 a = ltb (half64 - 1) a

-- `-a`, `~a`, `a + b`, `a - b` and `a * b` on 64 bits.
unfoldable pub neg64 : ℕ → ℕ
neg64 a = (word64 - a) % word64

unfoldable pub not64 : ℕ → ℕ
not64 a = word64 - 1 - a

unfoldable pub add64 : ℕ → ℕ → ℕ
add64 a b = (a + b) % word64

unfoldable pub sub64 : ℕ → ℕ → ℕ
sub64 a b = (a + word64 - b) % word64

unfoldable pub mul64 : ℕ → ℕ → ℕ
mul64 a b = a * b % word64

-- `a << s`, `a >> s` on `unsigned long` and `a >> s` on `long`.
unfoldable pub shl64 : ℕ → ℕ → ℕ
shl64 a s = a * 2 ^ (s % 64) % word64

unfoldable pub lsr64 : ℕ → ℕ → ℕ
lsr64 a s = a / 2 ^ (s % 64)

unfoldable pub asr64 : ℕ → ℕ → ℕ
asr64 a s = if is_neg64 a then word64 - 1 - (word64 - 1 - a) / 2 ^ (s % 64) else a / 2 ^ (s % 64)
