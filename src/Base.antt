-- ===== src/Base.antt =====
-- The names that every module shares: the libraries', passed on, and those of the children.
mod Tests
mod Lists
mod Text
pub mod Json
mod Outcomes
mod Order
pub use Tests.*
pub use Lists.*
unfoldable pub use Text.{
  codes, is_digit, in_list, strip, strip_left, strip_right, is_space, is_blank, strip_text,
  take_text, drop_text,
}
pub use Outcomes.{Outcome, ok, raised, ◌>>=◌, ◌>>◌, require, ok-injective, require_ok, bind_ok}
unfoldable pub use Order.{
  codes_lt, text_lt, insert_unique, sort_unique, texts_eq, is_sorted_set, Ascending,
}
pub use Order.{is_sorted_set-Ascending, eq_of_texts_eq}
pub use Prim.Native.Nat.{ℕ, zero, suc, ◌+◌, ◌-◌, ◌*◌, ◌≤◌, ◌<◌}
pub use Prim.Native.String.{String}
pub use Prim.Native.String.{◌++◌ as ◌<>◌}
pub use mathlib.Core.Path.{◌≡◌, refl, sym, ap, ◌∙◌}
pub use mathlib.Core.Logic.{◌≢◌, ◌↔◌, ◌⊎◌, inl, inr}
pub use mathlib.Core.Bool.{Bool, true, false, not, ◌&&◌, ◌||◌}
pub use mathlib.Core.Option.{Option, none, some}
pub use mathlib.Core.List.{List, [], ◌∷◌, ◌++◌, map}
pub use native.Mathlib.Omega.{arith}
pub use text.Mathlib.Text.{◌==◌ as str_eq}
pub use text.Mathlib.TextEquality.{eq_iff}
pub use text.Mathlib.TextPositions.{eq_refl}
