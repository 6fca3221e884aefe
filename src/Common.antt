-- ===== src/Common.antt =====
-- Names shared by the modules of this library: the libraries' names passed on, Boolean tests,
-- lists over the native numbers, signed integers and the outcome of code that can abort.
mod Tests
mod Lists
mod Int
mod Abort
mod Bits
pub use Tests.*
unfoldable pub use Lists.*
pub use Int.*
pub use Bits.*
pub use Abort.*
pub use Prim.Native.Nat.{
  ℕ, zero, suc, ◌+◌, ◌-◌, ◌*◌, ◌/◌, ◌%◌, ◌^◌, ◌≤◌, ◌<◌, min, max, bit_and, bit_or,
}
pub use mathlib.Core.Path.{◌≡◌, refl, sym, ap, ap₂, ◌∙◌, subst}
pub use mathlib.Core.Logic.{◌≢◌, ◌↔◌, ◌⊎◌, inl, inr}
pub use mathlib.Core.Bool.{Bool, true, false, not, ◌&&◌, ◌||◌}
pub use mathlib.Core.Option.{Option, none, some}
pub use mathlib.Core.List.{List, [], ◌∷◌, ◌++◌, map, append_assoc, append-nil}
pub use native.Mathlib.Omega.{arith}
