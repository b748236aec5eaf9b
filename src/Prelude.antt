-- ===== src/Prelude.antt =====
-- The names that the other modules share: the libraries' and those of the child modules.
mod Tests
mod Lists
mod Keys
mod Dict
mod Float
mod Strings
mod Int
mod Words
mod Order
pub use Tests.*
pub use Lists.*
pub use Keys.*
unfoldable pub use Dict.*
pub use Float.*
pub use Strings.*
pub use Int.*
pub use Words.*
pub use Order.*
pub use Prim.Native.Nat.{ℕ, zero, suc, ◌+◌, ◌-◌, ◌*◌, ◌/◌, ◌%◌, ◌^◌, ◌≤◌, ◌<◌}
pub use Prim.Native.String.{String}
pub use mathlib.Core.Path.{◌≡◌, refl, sym, ap, ◌∙◌}
pub use mathlib.Core.Logic.{◌≢◌, ◌↔◌, ◌⊎◌, inl, inr}
pub use mathlib.Core.Bool.{Bool, true, false, not, ◌&&◌, ◌||◌}
pub use mathlib.Core.Option.{Option, none, some}
pub use mathlib.Core.List.{List, [], ◌∷◌, ◌++◌, map}
pub use native.Mathlib.Omega.{arith}
pub use text.Mathlib.TextEquality.{eq_iff}
unfoldable pub use native.Mathlib.Decide.{dec_lt, dec_le, ℕ_discrete}

-- Arithmetic of uint64 wraps.
abbrev pub u64 : ℕ → ℕ
u64 n = n % 18446744073709551616
