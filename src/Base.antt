-- ===== src/Base.antt =====
-- The names that the other modules share: those of the libraries, passed on, Boolean tests, lists
-- measured by native numbers, families indexed by numbers, and the error codes of
-- include/lib/errcode.h and include/kernel/vm.h.
mod Tests
mod Lists
mod Family
mod Errors
mod Powers
mod Members
pub use Tests.*
pub use Lists.*
unfoldable pub use Family.*
pub use Errors.*
pub use Powers.*
unfoldable pub use Members.*
pub use Prim.Native.Nat.{ℕ, zero, suc, ◌+◌, ◌-◌, ◌*◌, ◌/◌, ◌%◌, ◌^◌, ◌≤◌, ◌<◌, min}
pub use mathlib.Core.Path.{◌≡◌, refl, sym, ap, ap₂, ◌∙◌, subst}
pub use mathlib.Core.Logic.{◌≢◌, ◌↔◌, ◌⊎◌, inl, inr}
pub use mathlib.Core.Bool.{Bool, true, false, not, ◌&&◌, ◌||◌}
pub use mathlib.Core.Option.{Option, none, some}
pub use mathlib.Core.List.{List, [], ◌∷◌, ◌++◌, map, append-nil, append_assoc}
pub use native.Mathlib.Omega.{arith}
unfoldable pub use native.Mathlib.Decide.{dec_lt, ℕ_discrete}
