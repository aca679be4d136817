-- ===== src/Prelude.antt =====
-- Names that every other module uses: those of the libraries, passed on, tests on numbers, lists
-- measured by native numbers, and C's `int`.
mod Tests
mod Lists
mod Signed
mod Strings
mod Chars
pub mod Int
pub use Tests.*
pub use Lists.*
pub use Signed.{
  ℤ, pos, negsuc, pos_part, neg_part, sub_ℕ, ◌≤ℤ◌, ◌<ℤ◌, ltb_ℤ, eqb_ℤ, eqb_ℤ_iff, +ℤ_parts,
  -ℤ_parts, eq_of_parts, int_laws,
}
unfoldable pub use Signed.{◌+ℤ◌, ◌-ℤ◌}
pub use Strings.*
pub use Chars.{is_space, skip_space, is_digit, digits}
unfoldable pub use Chars.{atoi}
pub use Prim.Native.Nat.{ℕ, zero, suc, ◌+◌, ◌-◌, ◌*◌, ◌/◌, ◌%◌, ◌^◌, ◌≤◌, ◌<◌}
pub use mathlib.Core.Path.{◌≡◌, refl, sym, ap, ◌∙◌, fun_ext}
pub use mathlib.Core.Logic.{◌≢◌, ◌↔◌, ◌⊎◌, inl, inr}
pub use mathlib.Core.Bool.{Bool, true, false, not, ◌&&◌, ◌||◌}
pub use mathlib.Core.Option.{Option, none, some}
pub use mathlib.Core.List.{List, [], ◌∷◌, ◌++◌, map, append_assoc, append-nil}
pub use native.Mathlib.Omega.{arith}
