-- ===== src/Prelude.antt =====
-- The names that the components share: the libraries', passed on, and those of the children.
mod Tests
mod Lists
mod Int
mod Word
mod Text
mod Memory
pub mod Bits
pub use Tests.{
  ltb, leb, ◌==◌, if◌then◌else◌, ltb→lt, lt→ltb, leb→le, ==_iff, tests, Bool-cases, Option-cases,
}
pub use Tests.{==-refl, ==→eq, ==→ne, &&-left, &&-right, holds_below_at}
unfoldable pub use Tests.{holds_below}
pub use Lists.*
unfoldable pub use Int.{◌+ℤ◌, ◌-ℤ◌, ◌*ℤ◌}
pub use Int.{ℤ, pos, negsuc, pos_part, neg_part, sub_ℕ, ◌≤ℤ◌, ltb_ℤ, int_laws}
pub use Word.*
pub use Memory.{update, update_same, update_other, In, In-without, length-without}
unfoldable pub use Memory.{without}
unfoldable pub use Text.{name_eq}
pub use Prim.Native.Nat.{ℕ, zero, suc, ◌+◌, ◌-◌, ◌*◌, ◌/◌, ◌%◌, ◌^◌, ◌≤◌, ◌<◌, min, max}
pub use Prim.Native.Nat.{bit_and, bit_or, bit_xor}
pub use mathlib.Core.Path.{ap₂, ◌≡◌, refl, sym, ap, ◌∙◌, fun_ext, subst}
pub use mathlib.Core.Logic.{◌≢◌, ◌↔◌, ◌⊎◌, inl, inr}
pub use mathlib.Core.Bool.{Bool, true, false, ◌&&◌, ◌||◌, not}
pub use mathlib.Core.Option.{Option, none, some}
pub use mathlib.Core.List.{List, [], ◌∷◌, ◌++◌, map}
pub use native.Mathlib.Omega.{arith}
