-- ===== src/Common/Framing.antt =====
-- Splitting a text that arrives in parts.
use Prim.Native.Char.{Char}
use Prim.Native.String.{String}
use mathlib.Core.Path.{◌≡◌, refl, ap}
use mathlib.Core.Logic.{inl, inr}
use mathlib.Core.Bool.{false}
use mathlib.Core.List.{List, [], ◌∷◌, ◌++◌}
use text.Mathlib.TextLemmas.{nil-append, cons-append}
use vortex_flow.Common.Tests.{Bool-cases}
use vortex_flow.Common.Text.{
  split, push_head, char_eq, ◌∷ᶜ◌, ◌+s◌, init_parts, last_part, split-ne-nil,
}

-- The parts of a text that goes on are those of its start but the last, and those of what the last
-- one and the rest make.
pub split-append :
    (d : Char) (s t : String)
    → split d (s +s t) ≡ init_parts (split d s) ++ split d (last_part (split d s) +s t)
unfolding split init_parts last_part
split-append d String.[] t = rw (nil-append t) refl
split-append d (String.◌∷◌ c s) t =
    let (p, ps, e) = split-ne-nil d s in
    let ih = split-append d s t in
    elim (Bool-cases (char_eq c d)) [
      | inl same ↦ rw (cons-append c s t, same, ih, e) refl
      | inr differs ↦ rw (cons-append c s t, differs, ih, e) (of_parts differs p ps)
    ]
  where
    of_parts :
        char_eq c d ≡ false
        → (p : String) (ps : List String)
        → push_head c (init_parts (p ∷ ps) ++ split d (last_part (p ∷ ps) +s t))
          ≡ init_parts ((c ∷ᶜ p) ∷ ps) ++ split d (last_part ((c ∷ᶜ p) ∷ ps) +s t)
    of_parts differs p [] = rw (cons-append c p t, differs) refl
    of_parts differs p (q ∷ qs) = refl

pub init_parts-append :
    (xs : List String) (y : String) (ys : List String)
    → init_parts (xs ++ (y ∷ ys)) ≡ xs ++ init_parts (y ∷ ys)
unfolding init_parts
init_parts-append [] y ys = refl
init_parts-append (x ∷ []) y ys = refl
init_parts-append (x ∷ z ∷ xs) y ys = ap (λ l. x ∷ l) (init_parts-append (z ∷ xs) y ys)

pub last_part-append :
    (xs : List String) (y : String) (ys : List String)
    → last_part (xs ++ (y ∷ ys)) ≡ last_part (y ∷ ys)
unfolding last_part
last_part-append [] y ys = refl
last_part-append (x ∷ []) y ys = refl
last_part-append (x ∷ z ∷ xs) y ys = last_part-append (z ∷ xs) y ys
