-- ===== src/Prelude.antt =====
-- The names that the other modules share: the libraries', passed on, and those of the children.
mod Tests
mod Equality
mod Lists
mod Results
mod Text
mod Digits
mod Bytes
pub use Tests.*
pub use Equality.*
unfoldable pub use Lists.*
pub use Bytes.{bytes_ltb_irrefl, bytes_ltb_trans, bytes_ltb_total, bytes_ltb-zero}
unfoldable pub use Bytes.{bytes_ltb}
pub use Results.*
unfoldable pub use Text.{as_bytes}
pub use Text.{as_bytes-injective}
unfoldable pub use Digits.{parse_u128, parse_bytes, parse_unsigned, parse_digits}
pub use Prim.Native.Nat.{ℕ, zero, suc, ◌+◌, ◌-◌, ◌*◌, ◌/◌, ◌%◌, ◌^◌, ◌≤◌, ◌<◌}
pub use Prim.Native.String.{String}
pub use mathlib.Core.Path.{◌≡◌, refl, sym, ap, ◌∙◌, subst}
pub use mathlib.Core.Logic.{◌≢◌, ◌↔◌, ◌⊎◌, inl, inr}
pub use mathlib.Core.Bool.{Bool, true, false, ◌&&◌, ◌||◌, not}
pub use mathlib.Core.Option.{Option, none, some}
pub use mathlib.Core.List.{List, [], ◌∷◌, ◌++◌, map}
pub use native.Mathlib.Omega.{arith}
