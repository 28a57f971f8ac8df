-- ===== src/Base.antt =====
-- The names that every component shares: the libraries' own, passed on, and those of the children.
mod Tests
mod Lists
mod Texts
mod Ints
mod Maps
mod Orders
mod Sorting
pub use Tests.*
pub use Lists.*
pub use Texts.*
pub use Ints.*
pub use Maps.*
pub use Orders.*
pub use Sorting.*
pub use Prim.Native.Nat.{ℕ, zero, suc, ◌+◌, ◌-◌, ◌*◌, ◌≤◌, ◌<◌, min, max}
pub use Prim.Native.String.{String}
pub use mathlib.Core.Path.{◌≡◌, refl, sym, ap, ◌∙◌}
pub use mathlib.Core.Logic.{◌≢◌, ◌↔◌, ◌⊎◌, inl, inr}
pub use mathlib.Core.Bool.{Bool, true, false, not, ◌&&◌, ◌||◌}
pub use mathlib.Core.Option.{Option, none, some}
pub use mathlib.Core.List.{List, [], ◌∷◌, ◌++◌, map}
pub use native.Mathlib.Omega.{arith}
