-- ===== src/Base.antt =====
-- The names that the other modules share: the libraries', passed on, and those of the children.
mod Tests
mod Lists
mod Strings
pub mod Int
pub mod Assoc
pub mod Order
pub mod Decimal
pub mod Result
pub mod Padded
pub mod Fields
pub mod Sort
pub mod Paths
pub use Tests.*
pub use Lists.*
pub use Strings.{Text, codes, text_eq_refl, text_eq_iff, is_digit}
unfoldable pub use Strings.{
  text_eq, has_prefix, has_suffix, text_compare, split_on, trim_suffix, is_space, trim_left,
  trim_space,
}
pub use Prim.Native.Nat.{ℕ, zero, suc, ◌+◌, ◌-◌, ◌*◌, ◌^◌, ◌%◌, ◌≤◌, ◌<◌}
pub use mathlib.Core.Path.{◌≡◌, refl, sym, ap, ◌∙◌}
pub use mathlib.Core.Logic.{◌≢◌, ◌↔◌, ◌⊎◌, inl, inr}
pub use mathlib.Core.Bool.{Bool, true, false, not, ◌&&◌, ◌||◌}
pub use mathlib.Core.Option.{Option, none, some}
pub use mathlib.Core.List.{List, [], ◌∷◌, ◌++◌, map}
pub use native.Mathlib.Omega.{arith}
