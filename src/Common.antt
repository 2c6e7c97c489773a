-- ===== src/Common.antt =====
-- Names that all the other modules share: the libraries', passed on, and those of the children.
mod Tests
mod Lists
mod Texts
mod Decimal
mod Parse
pub mod Digits
pub use Tests.*
pub use Lists.*
unfoldable pub use Texts.{txt, text_eq, starts_with, contains}
unfoldable pub use Decimal.{decimal}
unfoldable pub use Parse.{
  parse_uint, split_on, splitn, lines, trim, trim_start, strip_prefix, trim_end, drop_while,
  digits_value, concat, split_whitespace, strip_suffix,
}
pub use Texts.{Text, text_eq_iff, text_eq_refl, text_eq_sym, texts}
pub use Prim.Native.Nat.{ℕ, zero, suc, ◌+◌, ◌-◌, ◌*◌, ◌/◌, ◌%◌, ◌^◌, ◌≤◌, ◌<◌}
pub use mathlib.Core.Path.{◌≡◌, subst, refl, sym, ap, ◌∙◌}
pub use mathlib.Core.Logic.{◌≢◌, ◌↔◌, ◌⊎◌, inl, inr}
pub use mathlib.Core.Bool.{Bool, true, false, not, ◌&&◌, ◌||◌}
pub use mathlib.Core.Option.{Option, none, some}
pub use mathlib.Core.List.{List, [], ◌∷◌, ◌++◌, map}
pub use native.Mathlib.Omega.{arith}
