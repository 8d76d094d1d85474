-- ===== src/Common.antt =====
-- The names that the other modules share: the libraries', passed on, and the helpers' own.
pub mod Tests
pub mod Lists
pub mod Bytes
pub mod Crc
pub use Tests.*
pub use Lists.*
pub use Bytes.*
unfoldable pub use Crc.{crc32_update}
pub use Crc.{crc32_update-lt}
pub use Prim.Native.Nat.{ℕ, zero, suc, ◌+◌, ◌-◌, ◌*◌, ◌/◌, ◌%◌, ◌^◌, ◌≤◌, ◌<◌, bit_and, bit_xor}
pub use mathlib.Core.Path.{◌≡◌, refl, sym, ap, ap₂, ◌∙◌, subst}
pub use mathlib.Core.Logic.{◌≢◌, ◌↔◌, ◌⊎◌, inl, inr}
pub use mathlib.Core.Bool.{Bool, true, false, not, ◌&&◌, ◌||◌}
pub use mathlib.Core.Option.{Option, none, some}
pub use mathlib.Core.List.{List, [], ◌∷◌, ◌++◌, map}
pub use native.Mathlib.Omega.{arith}
