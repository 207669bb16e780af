-- ===== src/Common.antt =====
-- The names that the other modules share: the libraries', passed on, and those of the children.
mod Tests
mod Lists
mod Members
mod Maps
mod Text
mod Decimal
mod Letters
mod Numerals
mod Pigeonhole
mod Framing
pub use Tests.*
pub use Lists.*
pub use Members.*
unfoldable pub use Lists.{uniq}
unfoldable pub use Text.{
  last_part, init_parts, slice_text, trim, trim_start, trim_end, is_space, split, join, includes,
}
pub use Text.{
  first_part, later_parts, push_head, char_eq, ◌∷ᶜ◌, ◌+s◌, join-split, first_part-includes,
  eq_of_char_eq, split-ne-nil, char-append,
}
pub use text.Mathlib.Text.{starts_with}
pub use text.Mathlib.TextPositions.{starts_with-append}
pub use text.Mathlib.TextLemmas.{nil-append, cons-append}
pub use text.Mathlib.TextLemmas.{append_assoc as text_append_assoc, append-nil as text_append_nil}
pub use text.Mathlib.TextLemmas.{
  append_cancel_left as text_append_cancel_left, append_cancel_right as text_append_cancel_right,
}
unfoldable pub use Letters.{
  translate, lower, ends_with, includes_text, is_word_char, underscored, slug, spaces,
}
pub use Letters.{lower_char}
pub use Framing.{split-append, init_parts-append, last_part-append}
unfoldable pub use Decimal.{show}
pub use Numerals.{show-inj}
pub use Pigeonhole.{length-Distinct}
unfoldable pub use Maps.{Dict, get, has_key, insert, map_from, map_of, keys, get_last}
pub use Maps.{get-insert, get-map_of, has-keys}
pub use Prim.Native.Nat.{ℕ, zero, suc, ◌+◌, ◌-◌, ◌*◌, ◌/◌, ◌%◌, ◌≤◌, ◌<◌}
pub use Prim.Native.String.{String}
pub use mathlib.Core.Path.{◌≡◌, refl, sym, ap, ap₂, ◌∙◌, subst, ◌≡⟨◌⟩◌, ◌∎}
pub use mathlib.Core.Logic.{◌≢◌, ◌↔◌, ◌⊎◌, inl, inr}
pub use mathlib.Core.Bool.{Bool, true, false, not, ◌&&◌, ◌||◌}
pub use mathlib.Core.Option.{Option, none, some}
pub use mathlib.Core.List.{List, [], ◌∷◌, ◌++◌, map, reverse, append-nil, append_assoc, map-append}
pub use native.Mathlib.Omega.{arith}
pub use text.Mathlib.TextEquality.{eq_iff}
pub use text.Mathlib.TextPositions.{eq_refl}

-- For `simp`: lists, and lists under `map`, brought to one form.
pub ruleset list_laws = (append-nil, append_assoc, map-append)

-- For `grind`: code that branches on `===` of texts.
pub ruleset text_tests = (arith, eq_iff)
