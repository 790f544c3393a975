-- ===== src/Base/Words.antt =====
-- Machine words of the i386 code: `uint` and `int` values as the 32 bits that hold them.
use Prim.Native.Nat.{ℕ, ◌+◌, ◌-◌, ◌%◌, ◌^◌}
use mathlib.Core.Bool.{Bool}
use hyeonseung_os.Base.Tests.{ltb}

abbrev pub word : ℕ
word = 2 ^ 32

-- `a + b` and `a - b`, for `int` and `uint` alike.
abbrev pub add32 : ℕ → ℕ → ℕ
add32 a b = (a + b) % 2 ^ 32

abbrev pub sub32 : ℕ → ℕ → ℕ
sub32 a b = (a + 2 ^ 32 - b) % 2 ^ 32

-- `a < b` of two `int` values: their order once the sign bit is flipped.
abbrev pub lt_int : ℕ → ℕ → Bool
lt_int a b = ltb ((a + 2 ^ 31) % 2 ^ 32) ((b + 2 ^ 31) % 2 ^ 32)
