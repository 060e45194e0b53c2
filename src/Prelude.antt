-- ===== src/Prelude.antt =====
-- The names that the other modules share: the libraries', passed on, and those of the children:
-- Boolean tests, integers, exceptions and transactions, tables, postconditions.
mod Tests
mod Int
mod Exceptions
mod Tables
mod Rows
mod Texts
mod Outcomes
mod Totality
pub use Tests.*
pub use Int.*
unfoldable pub use Exceptions.*
pub use Tables.*
pub use Rows.*
unfoldable pub use Texts.*
pub use Outcomes.*
pub use Totality.*
pub use Prim.Native.Nat.{ℕ, zero, suc, ◌+◌, ◌-◌, ◌*◌, ◌/◌, ◌%◌, ◌≤◌, ◌<◌, min, max}
pub use mathlib.Core.Path.{◌≡◌, refl, sym, ap, ◌∙◌, subst}
pub use mathlib.Core.Logic.{◌≢◌, ◌↔◌, ◌⊎◌, inl, inr}
pub use mathlib.Core.Bool.{Bool, true, false, not, ◌&&◌, ◌||◌}
pub use mathlib.Core.Option.{Option, none, some}
pub use mathlib.Core.List.{List, [], ◌∷◌, ◌++◌, map}
pub use native.Mathlib.Omega.{arith}
