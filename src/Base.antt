-- ===== src/Base.antt =====
-- The names that the other modules share: the libraries', passed on, and those of the children.
mod Tests
mod Lists
mod Strings
pub mod Decimal
mod Maps
mod Outcome
pub mod Int
pub mod Positions
pub use Tests.*
pub use Lists.*
unfoldable pub use Strings.{
  text_eq, starts_with, contains, split, join, to_upper_char, to_lower_char, to_upper, to_lower,
  index_of, last_index_of, ends_with, trim_space, trim_left,
}
pub use Strings.{Text, codes, text_eq_iff, text_eq_refl, text_eq-false, IsNonEmpty}
unfoldable pub use Maps.{lookup, insert}
pub use Maps.{
  Assoc, HasDistinctKeys, insert-HasDistinctKeys, lookup-insert, lookup-insert_self,
  lookup-insert_ne,
}
pub use Outcome.*
pub use Prim.Native.Nat.{ℕ, zero, suc, ◌+◌, ◌-◌, ◌*◌, ◌/◌, ◌%◌, ◌^◌, ◌≤◌, ◌<◌}
pub use Prim.Native.String.{String}
pub use mathlib.Core.Path.{◌≡◌, refl, sym, ap, ◌∙◌, subst}
pub use mathlib.Core.Logic.{◌≢◌, ◌↔◌, ◌⊎◌, inl, inr}
pub use mathlib.Core.Bool.{Bool, true, false, not, ◌&&◌, ◌||◌}
pub use mathlib.Core.Option.{Option, none, some}
pub use mathlib.Core.List.{List, [], ◌∷◌, ◌++◌, map}
pub use native.Mathlib.Omega.{arith}
