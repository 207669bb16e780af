-- ===== src/Channels/Recipients.antt =====
-- The list of recipients that a text holds.
use vortex_flow.Common.{
  char-append, String, Bool, true, false, List, [], ◌∷◌, map, not, all, ◌≡◌, refl, ap, sym, ◌∙◌,
  ◌==◌, ◌&&◌, filter, split, join, includes, trim, trim_end, is_space, ◌∷ᶜ◌, ◌+s◌, push_head,
  cons-append, nil-append, Bool-cases, inl, inr, eq_of_test, arith, split-ne-nil,
}
use Prim.Native.Char.{Char}
use vortex_flow.Catalog.Form.{split-plain, split-first}
use vortex_flow.Channels.{recipients}

-- An address as the form keeps it: not empty, trimmed and with no comma.
abbrev pub is_address : String → Bool
is_address s = not (s == "") && ((trim s == s) && not (includes "," s))

trim-space : (s : String) → trim (" " ∷ᶜ s) ≡ trim s
unfolding trim
trim-space s = refl

trim-push_head :
    (p : String) (ps : List String) → map trim (push_head " " (p ∷ ps)) ≡ map trim (p ∷ ps)
trim-push_head p ps = ap (λ q. q ∷ map trim ps) (trim-space p)

comma_space : (t : String) → ", " +s t ≡ "," ∷ᶜ (" " ∷ᶜ t)
comma_space t = cons-append "," " " t ∙ ap (λ s. "," ∷ᶜ s) (char-append " " t)

split-space : (t : String) → split "," (" " ∷ᶜ t) ≡ push_head " " (split "," t)
unfolding split
split-space t = refl

trim_parts-join :
    (x : String) (xs : List String)
    → all is_address (x ∷ xs) ≡ true
    → map trim (split "," (join ", " (x ∷ xs))) ≡ x ∷ xs
unfolding join
trim_parts-join x [] h =
    let same : trim x ≡ x = eq_of_test (trim x) x (ground arith) in
    rw (split-plain "," x (ground arith)) (ap (λ a. a ∷ []) same)
trim_parts-join x (y ∷ ys) h =
    let same : trim x ≡ x = eq_of_test (trim x) x (ground arith) in
    let rest = join ", " (y ∷ ys) in
    let (p, ps, e) = split-ne-nil "," rest in
    let ih = trim_parts-join y ys (ground arith) in
    rw (comma_space rest, split-first "," x (" " ∷ᶜ rest) (ground arith), split-space rest, same)
      (ap (λ l. x ∷ l)
        (ap (λ l. map trim (push_head " " l)) e ∙ trim-push_head p ps ∙ ap (map trim) (sym e) ∙ ih))

filter-addresses :
    (xs : List String) → all is_address xs ≡ true → filter (λ a. not (a == "")) xs ≡ xs
filter-addresses [] h = refl
filter-addresses (x ∷ xs) h =
    let full : not (x == "") ≡ true = ground arith in
    rw full (ap (λ l. x ∷ l) (filter-addresses xs (ground arith)))

pub recipients-join :
    (x : String) (xs : List String)
    → all is_address (x ∷ xs) ≡ true
    → recipients (join ", " (x ∷ xs)) ≡ x ∷ xs
unfolding recipients
recipients-join x xs h = rw (trim_parts-join x xs h) (filter-addresses (x ∷ xs) h)

filter-blank :
    (ps : List String)
    → all (λ p. trim p == "") ps ≡ true
    → filter (λ a. not (a == "")) (map trim ps) ≡ []
filter-blank [] h = refl
filter-blank (p ∷ ps) h =
    let blank : (trim p == "") ≡ true = ground arith in rw blank (filter-blank ps (ground arith))

pub recipients_blank :
    (s : String) → all (λ p. trim p == "") (split "," s) ≡ true → recipients s ≡ []
unfolding recipients
recipients_blank s h = filter-blank (split "," s) h

abbrev all_space : String → Bool
all_space String.[] = true
all_space (String.◌∷◌ c s) = is_space c && all_space s

abbrev is_nil : String → Bool
is_nil String.[] = true
is_nil (String.◌∷◌ c s) = false

cons-ne-nil : (c : Char) (s : String) → ((c ∷ᶜ s) == "") ≡ false
cons-ne-nil c s = elim (Bool-cases ((c ∷ᶜ s) == "")) [
  | inl e ↦ let clash : false ≡ true = ap is_nil (eq_of_test (c ∷ᶜ s) "" e) in ground arith
  | inr e ↦ e
]

trim-all_space : (s : String) → (trim s == "") ≡ all_space s
unfolding trim
trim-all_space String.[] = refl
trim-all_space (String.◌∷◌ c s) = elim (Bool-cases (is_space c)) [
  | inl e ↦ rw e (trim-all_space s)
  | inr e ↦ rw (e, e) (cons-ne-nil c (trim_end s))
]

all_space-append : (s t : String) → all_space (s +s t) ≡ (all_space s && all_space t)
all_space-append String.[] t = rw (nil-append t) refl
all_space-append (String.◌∷◌ c s) t = rw (cons-append c s t) (ground (arith, all_space-append s t))

-- A text that starts with one that is not blank is not blank.
pub trim-append-ne-nil : (s t : String) → (trim s == "") ≡ false → (trim (s +s t) == "") ≡ false
trim-append-ne-nil s t h =
    let solid : all_space s ≡ false = sym (trim-all_space s) ∙ h in
    rw (trim-all_space (s +s t), all_space-append s t, solid) refl

pub trim-join-ne-nil :
    (sep x : String) (xs : List String)
    → (trim x == "") ≡ false
    → (trim (join sep (x ∷ xs)) == "") ≡ false
unfolding join
trim-join-ne-nil sep x [] h = h
trim-join-ne-nil sep x (y ∷ ys) h = trim-append-ne-nil x (sep +s join sep (y ∷ ys)) h
