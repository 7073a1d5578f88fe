-- ===== src/Base.antt =====
-- Names that every module shares: the libraries', passed on, Boolean tests, and lists measured by
-- the native numbers.
pub mod Tests
pub mod Lists
pub mod Outcome
pub mod Bytes
pub mod ByteMap
pub mod Members
pub use Tests.*
pub use Lists.*
pub use Outcome.*
unfoldable pub use Bytes.*
unfoldable pub use ByteMap.*
unfoldable pub use Members.*
pub use Prim.Native.Nat.{ℕ, zero, suc, ◌+◌, ◌-◌, ◌*◌, ◌/◌, ◌%◌, ◌^◌, ◌≤◌, ◌<◌, min, max}
pub use mathlib.Core.Path.{◌≡◌, refl, sym, ap, ◌∙◌}
pub use mathlib.Core.Logic.{◌≢◌, ◌↔◌, ◌⊎◌, inl, inr}
pub use mathlib.Core.Bool.{Bool, true, false, not, ◌&&◌, ◌||◌}
pub use mathlib.Core.Option.{Option, none, some}
pub use mathlib.Core.List.{List, [], ◌∷◌, ◌++◌, map}
pub use native.Mathlib.Omega.{arith}
