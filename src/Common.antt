-- ===== src/Common.antt =====
-- Names that every module shares: the libraries', passed on, with tests, lists and tables.
mod Tests
mod Lists
mod Updates
mod Keys
mod CodePoints
mod Digits
pub use Tests.*
pub use Lists.*
pub use Updates.*
pub use Keys.*
pub use CodePoints.*
unfoldable pub use Digits.{digits}
pub use Digits.{digits_injective, digits_nonempty}
pub use Prim.Native.Nat.{ℕ, zero, suc, ◌+◌, ◌-◌, ◌*◌, ◌/◌, ◌%◌, ◌≤◌, ◌<◌, min, max}
pub use Prim.Native.String.{String}
pub use mathlib.Core.Path.{◌≡◌, refl, sym, ap, ap₂, subst, subst₂, ◌∙◌}
pub use mathlib.Core.Logic.{◌≢◌, ◌↔◌, ◌⊎◌, inl, inr}
pub use mathlib.Core.Bool.{Bool, true, false, not, ◌&&◌, ◌||◌}
pub use mathlib.Core.Option.{Option, none, some}
pub use mathlib.Core.List.{List, [], ◌∷◌, ◌++◌, map}
pub use native.Mathlib.Omega.{arith}
