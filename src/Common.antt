-- ===== src/Common.antt =====
-- The names that every module shares: library names passed on, Boolean tests, arrays, signed
-- integers and C strings.
pub mod Tests
pub mod Arrays
pub mod Strings
pub mod Decimal
pub mod Digits
pub mod Output
pub mod Scan
pub mod Perms
pub use Tests.*
pub use Arrays.*
pub use Perms.*
unfoldable pub use Scan.*
unfoldable pub use Output.*
unfoldable pub use Decimal.*
pub use Digits.*
unfoldable pub use Strings.*
pub use Prim.Native.Nat.{ℕ, zero, suc, ◌+◌, ◌-◌, ◌*◌, ◌/◌, ◌%◌, ◌^◌, ◌≤◌, ◌<◌, Ordering}
pub use mathlib.Core.Path.{◌≡◌, refl, sym, ap, ◌∙◌}
pub use mathlib.Core.Logic.{◌≢◌, ◌↔◌, ◌⊎◌, inl, inr}
pub use mathlib.Core.Bool.{Bool, true, false, not, ◌&&◌, ◌||◌}
pub use mathlib.Core.Option.{Option, none, some}
pub use mathlib.Core.List.{List, [], ◌∷◌, ◌++◌, map}
pub use native.Mathlib.Omega.{arith}
