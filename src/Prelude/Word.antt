-- ===== src/Prelude/Word.antt =====
-- 64-bit words: an `int64` or an `atomic.Int64` is its bit pattern, a number below 2 ^ 64.
use Prim.Native.Nat.{ℕ, ◌+◌, ◌-◌, ◌%◌, ◌^◌}
use mathlib.Core.Bool.{Bool, ◌&&◌}
use evictor.Prelude.Tests.{ltb, if◌then◌else◌}
use evictor.Prelude.Int.{ℤ, pos, negsuc}

abbrev pub wrap64 : ℕ → ℕ
wrap64 n = n % 2 ^ 64

-- `a + b` and `a - b` on int64.
abbrev pub add64 : ℕ → ℕ → ℕ
add64 a b = wrap64 (a + b)

abbrev pub sub64 : ℕ → ℕ → ℕ
sub64 a b = wrap64 (a + 2 ^ 64 - b)

-- The pattern of the constant -1.
abbrev pub minus_one : ℕ
minus_one = 2 ^ 64 - 1

-- `0 < a`, read as a signed number.
abbrev pub is_positive64 : ℕ → Bool
is_positive64 a = ltb 0 a && ltb a (2 ^ 63)

-- The integer that a pattern stands for.
abbrev pub signed : ℕ → ℤ
signed a = if ltb a (2 ^ 63) then pos a else negsuc (2 ^ 64 - a - 1)
