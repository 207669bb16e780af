-- ===== src/CatalogGen/Texts.antt =====
-- frontend/src/lib/catalogGen.ts: the labels and the hints of fields, made of texts of the schema. The
-- regular expressions of the source are functions on characters; `toUpperCase` is that of ASCII
-- letters. A text is a list of code points, and `slice` counts its UTF-16 code units.
use vortex_flow.Common.{
  ℕ, zero, suc, ◌+◌, ◌-◌, leb, String, Bool, true, false, Option, none, some, ◌∷ᶜ◌, ◌+s◌, char_eq,
  ◌==◌, ◌||◌, ◌&&◌, if◌then◌else◌, is_space, is_word_char, translate, trim,
}
use Prim.Native.Char.{Char, code}

-- `s.replace(/[...]+/g, ' ')` for the characters that `p` accepts; `inside` tells whether the
-- character before was one.
unfoldable pub runs_to_space : (Char → Bool) → Bool → String → String
runs_to_space p inside String.[] = ""
runs_to_space p inside (String.◌∷◌ c s) =
    let more = runs_to_space p true s in
    let other = runs_to_space p false s in
    if p c then (if inside then more else " " +s more) else c ∷ᶜ other

-- `s.replace(/::/g, ' ')`
unfoldable pub colons_to_space : String → String
colons_to_space String.[] = ""
colons_to_space (String.◌∷◌ c String.[]) = c ∷ᶜ ""
colons_to_space (String.◌∷◌ c (String.◌∷◌ d s)) =
    let after = colons_to_space s in
    let next = colons_to_space (String.◌∷◌ d s) in
    if char_eq c ":" && char_eq d ":" then " " +s after else c ∷ᶜ next

abbrev pub upper_char : Char → Char
upper_char c = translate c "abcdefghijklmnopqrstuvwxyz" "ABCDEFGHIJKLMNOPQRSTUVWXYZ"

-- `s.replace(/^\w/, (c) => c.toUpperCase())`
unfoldable pub capitalize : String → String
capitalize String.[] = ""
capitalize (String.◌∷◌ c s) = if is_word_char c then upper_char c ∷ᶜ s else c ∷ᶜ s

abbrev pub is_dash : Char → Bool
is_dash c = char_eq c "_" || char_eq c "-"

unfoldable pub humanize : String → String
humanize s =
    capitalize
      (runs_to_space is_space false (trim (colons_to_space (runs_to_space is_dash false s))))

-- The text before the first `d`, the number of its characters, and what follows that `d`.
unfoldable pub span_to : Char → String → Option (String × ℕ × String)
span_to d String.[] = none
span_to d (String.◌∷◌ c s) =
    let rest = span_to d s in
    if char_eq c d
    then some ("", 0, s)
    else elim rest [ none ↦ none | some (t, n, r) ↦ some (c ∷ᶜ t, suc n, r) ]

-- The end of a link, after its text of `n` characters and the bracket that closes it.
unfoldable pub link_end : Char → Char → String → ℕ → String → Option (String × ℕ)
link_end open_ close t n String.[] = none
link_end open_ close t n (String.◌∷◌ c s) =
    if char_eq c open_ && (if t == "" then false else true)
    then elim (span_to close s) [
      | none ↦ none
      | some (u, m, r) ↦ if u == "" then none else some (t, n + (m + 3))
    ]
    else none

-- `\[([^\]]+)\]` and a target between `open_` and `close`, after the first bracket: the text of the
-- link, and how many characters it takes.
unfoldable pub link_at : Char → Char → String → Option (String × ℕ)
link_at open_ close s = elim (span_to "]" s) [
  | none ↦ none
  | some (t, n, r) ↦ link_end open_ close t n r
]

-- `s.replace(link, '$1')`, where the next `skip` characters belong to a link.
unfoldable pub unlink : Char → Char → ℕ → String → String
unlink open_ close skip String.[] = ""
unlink open_ close (suc k) (String.◌∷◌ c s) = unlink open_ close k s
unlink open_ close zero (String.◌∷◌ c s) =
    let rest = λ (k : ℕ). unlink open_ close k s in
    if char_eq c "["
    then elim (link_at open_ close s) [ none ↦ c ∷ᶜ rest zero | some (t, k) ↦ t +s rest k ]
    else c ∷ᶜ rest zero

abbrev pub is_stop : Char → Bool
is_stop c = char_eq c "." || (char_eq c "!" || char_eq c "?")

abbrev pub ends_here : String → Bool
ends_here String.[] = true
ends_here (String.◌∷◌ c s) = is_space c

abbrev pub push_char : Char → Option String → Option String
push_char c none = none
push_char c (some s) = some (c ∷ᶜ s)

-- The match of `/^(.*?[.!?])(\s|$)/`
unfoldable pub sentence : String → Option String
sentence String.[] = none
sentence (String.◌∷◌ c s) =
    let rest = sentence s in if is_stop c && ends_here s then some (c ∷ᶜ "") else push_char c rest

-- How many UTF-16 code units a character takes.
abbrev pub width : Char → ℕ
width c = if leb 65536 (code c) then 2 else 1

-- `s.slice(0, n)`, in UTF-16 code units; the half of a character that the cut would leave is left out.
unfoldable pub take_text : ℕ → String → String
take_text n String.[] = ""
take_text n (String.◌∷◌ c s) =
    let rest = take_text (n - width c) s in if leb (width c) n then c ∷ᶜ rest else ""

abbrev pub or_text : Option String → String → String
or_text none s = s
or_text (some t) s = t

-- `firstSentence`, on a text that is there
unfoldable pub first_sentence : String → String
first_sentence desc =
    let s = trim (runs_to_space is_space false (runs_to_space (λ c. char_eq c "\n") false desc)) in
    let plain = unlink "(" ")" 0 (unlink "[" "]" 0 s) in
    take_text 200 (or_text (sentence plain) plain)
