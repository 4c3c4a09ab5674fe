-- ===== src/Base.antt =====
-- The names that the other modules share: the libraries', passed on, and the tests on numbers,
-- lists and options of two children. Integers, texts, instants, orders and sorting are modules
-- of their own below this one.
mod Tests
mod Lists
pub mod Int
pub mod Order
pub mod Sort
pub mod Text
pub mod Time
pub mod Result
pub mod Value
pub mod Options
pub mod Shares
pub mod Dict
pub use Tests.*
pub use Lists.*
pub use Prim.Native.Nat.{ℕ, zero, suc, ◌+◌, ◌-◌, ◌*◌, ◌/◌, ◌%◌, ◌≤◌, ◌<◌}
pub use Prim.Native.String.{String}
pub use mathlib.Core.Path.{◌≡◌, refl, sym, ap, ◌∙◌, subst}
pub use mathlib.Core.Logic.{◌≢◌, ◌↔◌, ◌⊎◌, inl, inr}
pub use mathlib.Core.Bool.{Bool, true, false, not, ◌&&◌, ◌||◌}
pub use mathlib.Core.Option.{Option, none, some}
pub use mathlib.Core.List.{List, [], ◌∷◌, ◌++◌, map}
pub use native.Mathlib.Omega.{arith}
pub use text.Mathlib.TextEquality.{eq_iff}
