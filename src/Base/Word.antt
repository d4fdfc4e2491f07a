-- ===== src/Base/Word.antt =====
-- Machine words. A uint64 is a number below 2^64; an int64 is its two's complement bit pattern, also
-- a number below 2^64, so that `+` and `-` wrap around as Go's do.
use Prim.Native.Nat.{ℕ, ◌+◌, ◌-◌, ◌*◌, ◌%◌, ◌^◌}
use mathlib.Core.Bool.{Bool}
use go_mcache.Base.Tests.{ltb, leb}

abbrev pub add64 : ℕ → ℕ → ℕ
add64 a b = (a + b) % 2 ^ 64

abbrev pub sub64 : ℕ → ℕ → ℕ
sub64 a b = (a + (2 ^ 64 - b % 2 ^ 64)) % 2 ^ 64

abbrev pub mul64 : ℕ → ℕ → ℕ
mul64 a b = a * b % 2 ^ 64

-- int64 order: flip the sign bit
abbrev pub signed_key : ℕ → ℕ
signed_key a = (a + 2 ^ 63) % 2 ^ 64

abbrev pub slt : ℕ → ℕ → Bool
slt a b = ltb (signed_key a) (signed_key b)

abbrev pub sle : ℕ → ℕ → Bool
sle a b = leb (signed_key a) (signed_key b)
