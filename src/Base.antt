-- ===== src/Base.antt =====
-- The names that the other modules share: those of the libraries, passed on, tests on numbers,
-- lists under native indices, outcomes of a run, and facts about bits.
mod Tests
mod Lists
mod Outcome
mod Slices
pub mod Array
pub mod Bits
pub mod Int
pub mod Order
pub use Tests.*
pub use Lists.*
unfoldable pub use Slices.*
pub use Outcome.*
pub use Prim.Native.Nat.{
  ℕ, zero, suc, ◌+◌, ◌-◌, ◌*◌, ◌/◌, ◌%◌, ◌^◌, ◌≤◌, ◌<◌, min, compare, Ordering, bit_and, bit_or,
  bit_xor,
}
pub use mathlib.Core.Path.{◌≡◌, refl, sym, ap, ◌∙◌}
pub use mathlib.Core.Logic.{◌≢◌, ◌↔◌, ◌⊎◌, inl, inr}
pub use mathlib.Core.Bool.{Bool, true, false, ◌&&◌, ◌||◌, not}
pub use mathlib.Core.Option.{Option, none, some}
pub use mathlib.Core.List.{List, [], ◌∷◌, ◌++◌, map, Perm}
pub use native.Mathlib.Omega.{arith}
