-- ===== src/Common.antt =====
-- The names that the other modules share: the libraries', passed on, and those of the children.
mod Tests
mod Lists
mod Words
mod Family
mod Results
mod Keys
mod Assoc
pub mod Bits
mod Int
pub use Tests.*
pub use Lists.*
pub use Words.*
pub use Family.*
pub use Results.*
pub use Int.*
unfoldable pub use Keys.{elem, erase}
pub use Keys.{Eq, ◌=?◌, nat_eq, string_eq, list_eq, =?_ne, =?_refl, elem-erase, elem-append}
unfoldable pub use Assoc.{find, change, remove}
pub use Assoc.{
  Distinct, mapped, find-change, find-remove, change-Distinct, remove-Distinct, length-change,
  length-remove,
}
pub use Prim.Native.Nat.{
  ℕ, zero, suc, ◌+◌, ◌-◌, ◌*◌, ◌/◌, ◌%◌, ◌^◌, ◌≤◌, ◌<◌, bit_and, bit_or, bit_xor,
}
pub use mathlib.Core.Path.{◌≡◌, refl, sym, ap, ap₂, subst, ◌∙◌, fun_ext}
pub use mathlib.Core.Logic.{◌≢◌, ◌↔◌, ◌⊎◌, inl, inr}
pub use mathlib.Core.Logic.{ite, if_pos, if_neg}
pub use mathlib.Core.Bool.{Bool, true, false, not, ◌&&◌, ◌||◌}
pub use mathlib.Core.Option.{Option, none, some}
pub use mathlib.Core.List.{List, [], ◌∷◌, ◌++◌, map}
pub use native.Mathlib.Omega.{arith}
unfoldable pub use native.Mathlib.Decide.{dec_lt, dec_le, ℕ_discrete}
