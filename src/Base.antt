-- ===== src/Base.antt =====
-- The names that the modules share: library names passed on, Boolean tests and lists over the
-- native numbers, tables of rows, integers, texts, results of operations that may raise, and time.
mod Tests
mod Lists
mod Counts
mod Texts
mod Results
mod Time
pub mod Int
pub use Tests.*
unfoldable pub use Lists.*
pub use Counts.*
unfoldable pub use Texts.*
pub use Results.*
pub use Time.*
pub use Prim.Native.Nat.{ℕ, zero, suc, ◌+◌, ◌-◌, ◌*◌, ◌/◌, ◌%◌, ◌≤◌, ◌<◌, min}
pub use mathlib.Core.Path.{◌≡◌, refl, sym, ap, ◌∙◌, subst}
pub use mathlib.Core.Logic.{◌≢◌, ◌↔◌, ◌⊎◌, inl, inr}
pub use mathlib.Core.Bool.{Bool, true, false, ◌&&◌, ◌||◌, not}
pub use mathlib.Core.Option.{Option, none, some}
pub use mathlib.Core.List.{List, [], ◌∷◌, ◌++◌, map}
pub use native.Mathlib.Omega.{arith}
