-- ===== src/Base.antt =====
-- The names that the other modules share: the libraries', passed on, with Boolean tests,
-- decidable equality as an interface, and the list operations that the Python code uses.
mod Tests
pub mod Equality
pub mod Lists
pub mod Order
pub mod Int
pub mod ListLaws
pub mod OrderLaws
pub mod DictLaws
pub mod Results
pub use Tests.*
pub use Equality.*
pub use Lists.*
pub use Prim.Native.Nat.{ℕ, zero, suc, ◌+◌, ◌-◌, ◌*◌, ◌/◌, ◌%◌, ◌^◌, ◌≤◌, ◌<◌}
pub use Prim.Native.String.{String}
pub use mathlib.Core.Path.{◌≡◌, refl, sym, ap, ◌∙◌}
pub use mathlib.Core.Logic.{◌≢◌, ◌↔◌, ◌⊎◌, inl, inr}
pub use mathlib.Core.Bool.{Bool, true, false, not, ◌&&◌, ◌||◌}
pub use mathlib.Core.Option.{Option, none, some}
pub use mathlib.Core.List.{List, [], ◌∷◌, ◌++◌, map}
pub use native.Mathlib.Omega.{arith}
