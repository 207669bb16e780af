-- ===== src/Routes/Quoted.antt =====
-- The conditions of the branches in the preview of a route, as a reader of YAML sees them.
use vortex_flow.Common.{
  String, true, false, Option, none, some, ◌≡◌, refl, ap, sym, ◌∙◌, inl, inr, Bool-cases, ◌+s◌,
  ◌∷ᶜ◌, char_eq, if◌then◌else◌, cons-append, text_append_assoc,
}
use Prim.Native.Char.{Char}
use vortex_flow.Types.{RouteBranch}
use vortex_flow.Routes.{double_quotes, branch_key, branch_line}

abbrev push_char : Char → Option String → Option String
push_char c none = none
push_char c (some s) = some (c ∷ᶜ s)

-- A scalar in single quotes, after the first: two quotes stand for one, and a single one ends it,
-- with nothing behind. Line breaks stay as they are.
unfoldable pub read_quoted : String → Option String
read_quoted String.[] = none
read_quoted (String.◌∷◌ c String.[]) = if char_eq c "'" then some "" else none
read_quoted (String.◌∷◌ c (String.◌∷◌ d s)) =
    let after_pair = read_quoted s in
    let after_char = read_quoted (String.◌∷◌ d s) in
    if char_eq c "'"
    then (if char_eq d "'" then push_char c after_pair else none)
    else push_char c after_char

read_quoted-plain :
    (c : Char) (s : String)
    → char_eq c "'" ≡ false
    → read_quoted (c ∷ᶜ s) ≡ push_char c (read_quoted s)
unfolding read_quoted
read_quoted-plain c String.[] e = rw e refl
read_quoted-plain c (String.◌∷◌ d s) e = rw e refl

read_quoted-pair :
    (c : Char) (s : String)
    → char_eq c "'" ≡ true
    → read_quoted (c ∷ᶜ (c ∷ᶜ s)) ≡ push_char c (read_quoted s)
unfolding read_quoted
read_quoted-pair c s e = rw e refl

read_quoted-double_quotes : (s : String) → read_quoted (double_quotes s +s "'") ≡ some s
unfolding double_quotes
read_quoted-double_quotes String.[] = unfold read_quoted in refl
read_quoted-double_quotes (String.◌∷◌ c s) =
    let ih = ap (push_char c) (read_quoted-double_quotes s) in
    elim (Bool-cases (char_eq c "'")) [
      | inl e ↦
          rw (e, cons-append c (c ∷ᶜ double_quotes s) "'", cons-append c (double_quotes s) "'")
            (read_quoted-pair c (double_quotes s +s "'") e ∙ ih)
      | inr e ↦
          rw (e, cons-append c (double_quotes s) "'")
            (read_quoted-plain c (double_quotes s +s "'") e ∙ ih)
    ]

-- The line of a branch is its key and a scalar in single quotes, and a reader takes the scalar for
-- the condition of the branch, whatever quotes that has.
pub read_quoted-branch_line :
    (b : RouteBranch)
    → (rest : String) × (branch_line b ≡ ("      " +s (branch_key b +s ": '")) +s rest)
      × (read_quoted rest ≡ some b.condition)
read_quoted-branch_line b = (
  double_quotes b.condition +s "'",
  sym (
      text_append_assoc "      " (branch_key b +s ": '") (double_quotes b.condition +s "'")
      ∙ ap (λ t. "      " +s t) (text_append_assoc (branch_key b) ": '" _)),
  read_quoted-double_quotes b.condition,
)
