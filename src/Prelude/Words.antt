-- ===== src/Prelude/Words.antt =====
-- Machine integers as the number that their bits spell; a signed one below half the range is itself.
use Prim.Native.Nat.{ℕ, ◌+◌, ◌%◌, ◌<◌}
use mathlib.Core.Path.{◌≡◌}
use mathlib.Core.Bool.{Bool}
use native.Mathlib.Omega.{arith}
use sssonector.Prelude.Tests.{ltb}

abbrev pub u32 : ℕ → ℕ
u32 n = n % 4294967296

-- `<` of int32, and of int64.
abbrev pub lt_int32 : ℕ → ℕ → Bool
lt_int32 a b = ltb (u32 (a + 2147483648)) (u32 (b + 2147483648))

abbrev pub lt_int64 : ℕ → ℕ → Bool
lt_int64 a b =
    ltb ((a + 9223372036854775808) % 18446744073709551616)
      ((b + 9223372036854775808) % 18446744073709551616)

pub lt_int32-ltb : (a b : ℕ) → a < 2147483648 → b < 2147483648 → lt_int32 a b ≡ ltb a b
lt_int32-ltb a b h g = ground arith

pub lt_int64-ltb :
    (a b : ℕ) → a < 9223372036854775808 → b < 9223372036854775808 → lt_int64 a b ≡ ltb a b
lt_int64-ltb a b h g = ground arith
