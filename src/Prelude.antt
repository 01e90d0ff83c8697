-- ===== src/Prelude.antt =====
-- The names that the other modules share: the libraries', passed on, and those of the children.
mod Tests
mod Equality
mod Lists
mod Relations
mod Strings
mod Decimal
pub mod Dict
mod Results
pub use Tests.*
pub use Equality.*
pub use Relations.*
pub use Lists.*
pub use Results.*
unfoldable pub use Equality.{list_beq}
pub use Strings.*
pub use Decimal.{int_of-decimal}
unfoldable pub use Strings.{
  split, join, starts_with, remove_prefix, replace_char, replace_pair_from, replace_pair, int_from,
  int_of, decimal_from, decimal,
}
pub use Prim.Native.Nat.{ℕ, zero, suc, ◌+◌, ◌-◌, ◌*◌, ◌/◌, ◌%◌, ◌^◌, ◌≤◌, ◌<◌, min, max}
pub use mathlib.Core.Path.{◌≡◌, refl, sym, ap, ◌∙◌, subst, ◌≡⟨◌⟩◌, ◌∎}
pub use mathlib.Core.Logic.{◌≢◌, ◌↔◌, ◌⊎◌, inl, inr}
pub use mathlib.Core.Bool.{Bool, true, false, not, ◌&&◌, ◌||◌}
pub use mathlib.Core.Option.{Option, none, some}
pub use mathlib.Core.List.{List, [], ◌∷◌, ◌++◌, map, append-nil, append_assoc}
pub use native.Mathlib.Omega.{arith}
