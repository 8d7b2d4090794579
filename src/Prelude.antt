-- ===== src/Prelude.antt =====
-- Names that every module shares: the libraries', passed on, with Boolean tests, lists over the
-- native numbers and the arithmetic of bit masks.
mod Tests
mod Lists
mod Arrays
mod Options
mod Tables
pub mod Order
pub mod Bits
pub mod Int
pub use Tests.*
pub use Lists.*
pub use Arrays.*
pub use Options.*
pub use Tables.*
pub use Prim.Native.Nat.{ℕ, zero, suc, ◌+◌, ◌-◌, ◌*◌, ◌/◌, ◌%◌, ◌^◌, ◌≤◌, ◌<◌, bit_and, bit_or}
pub use mathlib.Core.Path.{◌≡◌, refl, sym, ap, ◌∙◌}
pub use mathlib.Core.Logic.{◌≢◌, ◌↔◌, ◌⊎◌, inl, inr}
pub use mathlib.Core.Bool.{Bool, true, false, not, ◌&&◌, ◌||◌}
pub use mathlib.Core.Option.{Option, none, some}
pub use mathlib.Core.List.{List, [], ◌∷◌, ◌++◌, map}
pub use native.Mathlib.Omega.{arith}
