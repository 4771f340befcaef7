-- ===== src/Base.antt =====
-- Names that every part shares: the libraries', passed on, and those of the children.
mod Tests
mod Lists
mod Dicts
mod Values
mod Groups
mod Sets
mod Texts
pub mod Exec
pub mod Patterns
pub use Tests.*
unfoldable pub use Lists.*
pub use Values.*
unfoldable pub use Dicts.*
unfoldable pub use Groups.*
unfoldable pub use Sets.*
unfoldable pub use Texts.*
pub use Prim.Native.Nat.{ℕ, zero, suc, ◌+◌, ◌-◌, ◌*◌, ◌/◌, ◌%◌, ◌≤◌, ◌<◌, min}
pub use Prim.Native.String.{String}
pub use mathlib.Core.Path.{◌≡◌, refl, sym, ap, ◌∙◌}
pub use mathlib.Core.Logic.{◌≢◌, ◌↔◌, ◌⊎◌, inl, inr}
pub use mathlib.Core.Bool.{Bool, true, false, not, ◌&&◌, ◌||◌}
pub use mathlib.Core.Option.{Option, none, some}
pub use mathlib.Core.List.{List, [], ◌∷◌, ◌++◌, map}
pub use native.Mathlib.Omega.{arith}
