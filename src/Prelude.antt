-- ===== src/Prelude.antt =====
-- Names that the other modules share: the libraries' names passed on, Boolean tests, lists and
-- deques measured by native numbers, and the outcome of code that may panic.
mod Tests
mod Lists
mod Deque
mod Panics
mod Occurrences
pub use Tests.*
pub use Lists.*
pub use Deque.*
pub use Panics.*
pub use Occurrences.*
pub use Prim.Native.Nat.{ℕ, zero, suc, ◌+◌, ◌-◌, ◌*◌, ◌/◌, ◌%◌, ◌^◌, ◌≤◌, ◌<◌}
pub use mathlib.Core.Path.{◌≡◌, refl, sym, ap, subst, ◌∙◌}
pub use mathlib.Core.Logic.{◌≢◌, ◌↔◌, ◌⊎◌, inl, inr}
pub use mathlib.Core.Bool.{Bool, true, false, ◌&&◌, ◌||◌, not}
pub use mathlib.Core.Option.{Option, none, some}
pub use mathlib.Core.List.{List, [], ◌∷◌, ◌++◌, map, append-nil, append_assoc}
pub use native.Mathlib.Omega.{arith}
