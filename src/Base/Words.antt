-- ===== src/Base/Words.antt =====
-- 32-bit machine words as numbers below 2 ^ 32. An `int` is the word that holds it.
use Prim.Native.Nat.{ℕ, ◌+◌, ◌-◌, ◌%◌, ◌^◌}
use mathlib.Core.Bool.{Bool}
use operating_system_laborat.Base.Tests.{ltb}

abbrev pub u32 : ℕ → ℕ
u32 n = n % 2 ^ 32

-- a - b of unsigned int
abbrev pub sub32 : ℕ → ℕ → ℕ
sub32 a b = (a + 2 ^ 32 - b) % 2 ^ 32

-- a < b of int: adding 2 ^ 31 maps the signed order to the unsigned one.
abbrev pub slt : ℕ → ℕ → Bool
slt a b = ltb ((a + 2 ^ 31) % 2 ^ 32) ((b + 2 ^ 31) % 2 ^ 32)

-- the word of -1
abbrev pub minus_one : ℕ
minus_one = 2 ^ 32 - 1
