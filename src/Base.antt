-- ===== src/Base.antt =====
-- Names that all modules share: the libraries', passed on, and those of the children below, which
-- model what the program uses of JavaScript (numbers, strings, objects as dictionaries, sorting).
mod Tests
mod Numbers
mod Doubles
mod Lists
mod Elements
mod Sorted
mod Texts
mod Dicts
mod Bounds
mod Runs
unfoldable pub use Tests.*
unfoldable pub use Numbers.*
unfoldable pub use Doubles.*
unfoldable pub use Lists.*
pub use Elements.*
pub use Sorted.*
unfoldable pub use Texts.*
unfoldable pub use Dicts.*
pub use Bounds.*
unfoldable pub use Runs.*
pub use Prim.Native.Nat.{ℕ, zero, suc, ◌+◌, ◌-◌, ◌*◌, ◌/◌, ◌%◌, ◌^◌, ◌≤◌, ◌<◌, min, max}
pub use mathlib.Core.Path.{◌≡◌, refl, sym, ap, ◌∙◌, subst}
pub use mathlib.Core.Logic.{◌≢◌, ◌↔◌, ◌⊎◌, inl, inr}
pub use mathlib.Core.Bool.{Bool, true, false, not, ◌&&◌, ◌||◌}
pub use mathlib.Core.Option.{Option, none, some}
pub use mathlib.Core.List.{List, [], ◌∷◌, ◌++◌, map, reverse}
pub use native.Mathlib.Omega.{arith}
