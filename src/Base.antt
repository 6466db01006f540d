-- ===== src/Base.antt =====
-- Names that every module shares: the libraries', passed on, and those of the children.
mod Tests
mod Lists
pub mod Int
pub mod Bytes
mod Decimal
mod Strings
pub use Tests.*
unfoldable pub use Lists.*
pub use Int.{
  ℤ, pos, negsuc, pos_part, neg_part, ◌+ℤ◌, ◌-ℤ◌, ◌≤ℤ◌, leb_ℤ, ltb_ℤ, eqb_ℤ, int_laws, +ℤ_parts,
  -ℤ_parts, eq_of_parts, eqb_ℤ_iff,
}
unfoldable pub use Bytes.{text_eq, text_lt, cut}
pub use Bytes.{
  Text, text, text_eq_iff, text_lt_total, text_lt_trans, text_lt_irrefl, with_byte, cut-append,
  cut_absent,
}
unfoldable pub use Decimal.{itoa, atoi}
pub use Decimal.{atoi-itoa}
unfoldable pub use Strings.{split, trim_space, cut_or_all}
pub use Prim.Native.Nat.{ℕ, zero, suc, ◌+◌, ◌-◌, ◌*◌, ◌/◌, ◌%◌, ◌^◌, ◌≤◌, ◌<◌, min}
pub use mathlib.Core.Path.{◌≡◌, refl, sym, ap, subst, ◌∙◌}
pub use mathlib.Core.Logic.{◌≢◌, ◌↔◌, ◌⊎◌, inl, inr}
pub use mathlib.Core.Bool.{Bool, true, false, not, ◌&&◌, ◌||◌}
pub use mathlib.Core.Option.{Option, none, some}
pub use mathlib.Core.List.{List, [], ◌∷◌, ◌++◌, map}
pub use native.Mathlib.Omega.{arith}
