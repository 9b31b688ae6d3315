-- ===== src/Base.antt =====
-- The names that every module shares: the libraries', passed on, and those of the children, which
-- stand for what the Go code takes from the language and its standard library.
mod Tests
mod Lists
mod Texts
mod Sorting
mod Ints
mod Sets
mod Dicts
mod Results
mod Merging
pub mod TextLaws
pub mod SortLaws
pub mod Filtering
pub use Tests.*
pub use Lists.*
pub use Ints.*
unfoldable pub use Texts.*
unfoldable pub use Sorting.*
unfoldable pub use Sets.*
unfoldable pub use Dicts.*
unfoldable pub use Merging.*
pub use Results.*
pub use Prim.Native.Nat.{ℕ, zero, suc, ◌+◌, ◌-◌, ◌*◌, ◌/◌, ◌%◌, ◌≤◌, ◌<◌}
pub use mathlib.Core.Path.{◌≡◌, refl, sym, ap, subst, ◌∙◌}
pub use mathlib.Core.Logic.{◌≢◌, ◌↔◌, ◌⊎◌, inl, inr}
pub use mathlib.Core.Bool.{Bool, true, false, not, ◌&&◌, ◌||◌}
pub use mathlib.Core.Option.{Option, none, some}
pub use mathlib.Core.List.{List, [], ◌∷◌, ◌++◌, map, Perm}
pub use native.Mathlib.Omega.{arith}
