-- ===== src/Prelude/Float.antt =====
-- The float64 operations that the code calls, as an interface. Nothing is assumed of them here: a
-- theorem that needs a law of floating-point arithmetic names it as a hypothesis.
use Prim.Native.Nat.{ℕ}
use mathlib.Core.Bool.{Bool}

pub record Float64 : Type 1 where
  pub Float : Type 0
  pub of_nat : ℕ → Float
  pub div : Float → Float → Float
  pub lt : Float → Float → Bool
  pub le : Float → Float → Bool
