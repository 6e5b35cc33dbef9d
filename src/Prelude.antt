-- ===== src/Prelude.antt =====
-- The names that the other modules share: the libraries', passed on, and those of the children.
mod Tests
mod Lists
mod Int
mod Bits
mod Powers
mod Text
pub use Tests.*
pub use Lists.*
pub use Int.{ℤ, pos, negsuc, pos_part, neg_part, ltb_ℤ, add_lirc, sub_lirc}
unfoldable pub use Int.{sub_ℕ, ◌+ℤ◌, ◌-ℤ◌}
pub use Int.{+ℤ_parts, -ℤ_parts, int_laws}
pub use Bits.*
pub use Powers.*
pub use Text.{codes_of, lower, same_name_refl}
unfoldable pub use Text.{same_folded, same_name}
pub use Prim.Native.Nat.{ℕ, zero, suc, ◌+◌, ◌-◌, ◌*◌, ◌/◌, ◌%◌, ◌^◌, ◌≤◌, ◌<◌}
pub use Prim.Native.Nat.{bit_and, bit_or, bit_xor}
pub use Prim.Native.String.{String}
pub use mathlib.Core.Path.{◌≡◌, refl, sym, ap, subst, ◌∙◌}
pub use mathlib.Core.Logic.{◌≢◌, ◌↔◌, ◌⊎◌, inl, inr}
pub use mathlib.Core.Bool.{Bool, true, false, not, ◌&&◌, ◌||◌}
pub use mathlib.Core.Option.{Option, none, some}
pub use mathlib.Core.List.{List, [], ◌∷◌, ◌++◌, map, append_assoc, append-nil}
pub use native.Mathlib.Omega.{arith}
