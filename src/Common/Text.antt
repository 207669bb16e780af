-- ===== src/Common/Text.antt =====
-- Texts: template strings, `split` on one character and `join`.
use Prim.Native.Char.{Char, code}
use Prim.Native.Nat.{ℕ, zero, suc}
use Prim.Native.String
use Prim.Native.String.{String}
use mathlib.Core.Path.{◌≡◌, refl, ap, ap₂, sym, ◌∙◌}
use mathlib.Core.Bool.{Bool, true, false, ◌||◌, ◌&&◌}
use mathlib.Core.Logic.{inl, inr}
use mathlib.Core.List.{List, [], ◌∷◌}
use native.Mathlib.Omega.{arith}
use text.Mathlib.TextLemmas.{nil-append, cons-append}
use text.Mathlib.TextEquality.{Char-path}
use vortex_flow.Common.Tests.{nat_eq, leb, ◌==◌, Bool-cases, if◌then◌else◌}

infixr 67 ◌∷ᶜ◌
abbrev pub ◌∷ᶜ◌ : Char → String → String
c ∷ᶜ s = String.◌∷◌ c s

infixr 65 ◌+s◌
-- `${s}${t}`
abbrev pub ◌+s◌ : String → String → String
s +s t = String.◌++◌ s t

-- A character before a text, as `s + t` writes it.
pub char-append : (c : Char) (t : String) → (c ∷ᶜ "") +s t ≡ c ∷ᶜ t
char-append c t = cons-append c "" t ∙ ap (λ s. c ∷ᶜ s) (nil-append t)

abbrev pub push_head : Char → List String → List String
push_head c [] = (c ∷ᶜ "") ∷ []
push_head c (p ∷ ps) = (c ∷ᶜ p) ∷ ps

abbrev pub char_eq : Char → Char → Bool
char_eq c d = nat_eq (code c) (code d)

-- `s.split(d)`, for a separator of one character
unfoldable pub split : Char → String → List String
split d String.[] = "" ∷ []
split d (String.◌∷◌ c s) =
    let rest = split d s in if char_eq c d then "" ∷ rest else push_head c rest

-- `parts.join(sep)`
unfoldable pub join : String → List String → String
join sep [] = ""
join sep (p ∷ []) = p
join sep (p ∷ q ∷ ps) = p +s (sep +s join sep (q ∷ ps))

-- `s.includes(d)`, for one character
unfoldable pub includes : Char → String → Bool
includes d String.[] = false
includes d (String.◌∷◌ c s) = char_eq c d || includes d s

-- `parts[0]` and `parts.slice(1)`
abbrev pub first_part : List String → String
first_part [] = ""
first_part (p ∷ ps) = p

abbrev pub later_parts : List String → List String
later_parts [] = []
later_parts (p ∷ ps) = ps

-- `parts.pop() ?? ''`, and what it leaves
unfoldable pub last_part : List String → String
last_part [] = ""
last_part (p ∷ []) = p
last_part (p ∷ q ∷ ps) = last_part (q ∷ ps)

unfoldable pub init_parts : List String → List String
init_parts [] = []
init_parts (p ∷ []) = []
init_parts (p ∷ q ∷ ps) = p ∷ init_parts (q ∷ ps)

-- `s.slice(n)`
unfoldable pub slice_text : ℕ → String → String
slice_text zero s = s
slice_text (suc n) String.[] = ""
slice_text (suc n) (String.◌∷◌ c s) = slice_text n s

pub eq_of_char_eq : (c d : Char) → char_eq c d ≡ true → c ≡ d
eq_of_char_eq c d h = Char-path c d (ground arith)

join-push_head :
    (sep : String) (c : Char) (ps : List String) → join sep (push_head c ps) ≡ c ∷ᶜ join sep ps
unfolding join
join-push_head sep c [] = refl
join-push_head sep c (p ∷ []) = refl
join-push_head sep c (p ∷ q ∷ ps) = cons-append c p _

pub split-ne-nil :
    (d : Char) (s : String) → (p : String) × (ps : List String) × (split d s ≡ p ∷ ps)
unfolding split
split-ne-nil d String.[] = ("", [], refl)
split-ne-nil d (String.◌∷◌ c s) = elim (Bool-cases (char_eq c d)) [
  | inl e ↦ rw e ("", split d s, refl)
  | inr e ↦ rw e (push_head-ne-nil c (split d s))
]
  where
    push_head-ne-nil :
        (c : Char) (ps : List String)
        → (q : String) × (qs : List String) × (push_head c ps ≡ q ∷ qs)
    push_head-ne-nil c [] = (c ∷ᶜ "", [], refl)
    push_head-ne-nil c (p ∷ ps) = (c ∷ᶜ p, ps, refl)

join-split_cons :
    (d : Char) (s : String) → join (d ∷ᶜ "") ("" ∷ split d s) ≡ d ∷ᶜ join (d ∷ᶜ "") (split d s)
unfolding join
join-split_cons d s = let (p, ps, e) = split-ne-nil d s in rw e (nil-append _ ∙ char-append d _)

-- Joining the parts with the separator gives the text again.
pub join-split : (d : Char) (s : String) → join (d ∷ᶜ "") (split d s) ≡ s
unfolding split
join-split d String.[] = unfold join in refl
join-split d (String.◌∷◌ c s) = elim (Bool-cases (char_eq c d)) [
  | inl e ↦
      rw e (join-split_cons d s ∙ ap₂ (λ a t. a ∷ᶜ t) (sym (eq_of_char_eq c d e)) (join-split d s))
  | inr e ↦ rw e (rw join-push_head (rw (join-split d s)))
]

-- A text with the separator starts with its first part and the separator.
pub first_part-includes :
    (d : Char) (s : String)
    → includes d s ≡ true
    → s ≡ first_part (split d s) +s (d ∷ᶜ join (d ∷ᶜ "") (later_parts (split d s)))
unfolding split includes
first_part-includes d String.[] h = cc
first_part-includes d (String.◌∷◌ c s) h = elim (Bool-cases (char_eq c d)) [
  | inl e ↦
      rw e (ap₂ (λ a t. a ∷ᶜ t) (eq_of_char_eq c d e) (sym (join-split d s)) ∙ sym (nil-append _))
  | inr e ↦
      let (p, ps, f) = split-ne-nil d s in
      let ih : s ≡ p +s (d ∷ᶜ join (d ∷ᶜ "") ps) = rw f at (first_part-includes d s (rw e at h)) in
      rw (e, f) (ap (λ t. c ∷ᶜ t) ih ∙ sym (cons-append c p _))
]

-- White space as `trim` and `\s` see it.
unfoldable pub is_space : Char → Bool
is_space c =
    let n = code c in
    (leb 9 n && leb n 13)
    || nat_eq n 32
    || nat_eq n 160
    || nat_eq n 5760
    || (leb 8192 n && leb n 8202)
    || nat_eq n 8232
    || nat_eq n 8233
    || nat_eq n 8239
    || nat_eq n 8287
    || nat_eq n 12288
    || nat_eq n 65279

unfoldable pub trim_start : String → String
trim_start String.[] = ""
trim_start (String.◌∷◌ c s) = let rest = trim_start s in if is_space c then rest else c ∷ᶜ s

unfoldable pub trim_end : String → String
trim_end String.[] = ""
trim_end (String.◌∷◌ c s) =
    let rest = trim_end s in if is_space c && rest == "" then "" else c ∷ᶜ rest

-- `s.trim()`
unfoldable pub trim : String → String
unfolding trim_start trim_end is_space
trim s = trim_end (trim_start s)
