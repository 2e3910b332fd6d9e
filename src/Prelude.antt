-- ===== src/Prelude.antt =====
-- Names that the other modules share: the libraries' and those of the children below.
mod Tests
mod Lists
mod Texts
mod Ints
mod Decimal
mod Sorting
mod Finding
mod Updates
pub use Tests.*
pub use Lists.*
unfoldable pub use Texts.*
pub use Ints.*
unfoldable pub use Decimal.*
unfoldable pub use Sorting.*
pub use Finding.*
unfoldable pub use Updates.*
pub use Prim.Native.Nat.{ℕ, zero, suc, ◌+◌, ◌-◌, ◌*◌, ◌/◌, ◌%◌, ◌≤◌, ◌<◌, min}
pub use mathlib.Core.Path.{◌≡◌, refl, sym, ap, ap₂, ◌∙◌, subst}
pub use mathlib.Core.Logic.{◌≢◌, ◌↔◌, ◌⊎◌, inl, inr}
pub use mathlib.Core.Bool.{Bool, true, false, not, ◌&&◌, ◌||◌}
pub use mathlib.Core.Option.{Option, none, some}
pub use mathlib.Core.List.{List, [], ◌∷◌, ◌++◌, map, append-nil, append_assoc}
pub use native.Mathlib.Omega.{arith}
