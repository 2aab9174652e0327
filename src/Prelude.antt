-- ===== src/Prelude.antt =====
-- The names that the other modules share: the libraries', passed on, and those of the children.
mod Tests
mod Lists
pub mod Paths
pub mod Int
pub mod Texts
pub mod Decimal
pub mod Table
pub use Tests.{
  if◌then◌else◌, ltb, leb, Eq, ◌==◌, Bool-cases, Option-cases, Dec-cases, is_some, ==_refl,
  eq_of_==, none_when_absent,
}
unfoldable pub use Tests.{String-discrete, Option-discrete, Bool-discrete, List-discrete}
pub use Tests.{nat_eq, string_eq, option_eq, bool_eq, list_eq}
pub use Lists.{length, contains, any, all, count_distinct, length-append}
unfoldable pub use Lists.{dedup, filter_by, find_by}
pub use Prim.Native.Nat.{ℕ, zero, suc, ◌+◌, ◌-◌, ◌*◌, ◌/◌, ◌%◌, ◌^◌, ◌≤◌, ◌<◌}
pub use Prim.Native.String.{String}
pub use mathlib.Core.Path.{◌≡◌, refl, sym, ap, ◌∙◌}
pub use mathlib.Core.Logic.{◌≢◌, ◌↔◌, ◌⊎◌, inl, inr}
pub use mathlib.Core.Bool.{Bool, true, false, not, ◌&&◌, ◌||◌}
pub use mathlib.Core.Option.{Option, none, some}
pub use mathlib.Core.List.{List, [], ◌∷◌, ◌++◌, map, reverse}
pub use native.Mathlib.Omega.{arith}
unfoldable pub use native.Mathlib.Decide.{ℕ_discrete}
