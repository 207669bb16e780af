-- ===== src/Common/Letters.antt =====
-- Texts again: lower case for ASCII letters, `endsWith`, `includes` of a text, and slugs.
use Prim.Native.Char.{Char, code}
use Prim.Native.Nat.{ℕ, zero, suc}
use Prim.Native.String.{String}
use mathlib.Core.Bool.{Bool, ◌||◌, ◌&&◌}
use text.Mathlib.Text.{starts_with}
use vortex_flow.Common.Tests.{nat_eq, leb, ◌==◌, if◌then◌else◌}
use vortex_flow.Common.Text.{◌∷ᶜ◌, ◌+s◌, char_eq}

-- The character that stands in `to` where `c` stands in `from`, and `c` if it stands nowhere.
unfoldable pub translate : Char → String → String → Char
translate c String.[] to = c
translate c (String.◌∷◌ x xs) String.[] = c
translate c (String.◌∷◌ x xs) (String.◌∷◌ y ys) =
    let rest = translate c xs ys in if char_eq x c then y else rest

abbrev pub lower_char : Char → Char
lower_char c = translate c "ABCDEFGHIJKLMNOPQRSTUVWXYZ" "abcdefghijklmnopqrstuvwxyz"

-- `s.toLowerCase()`, on ASCII letters
unfoldable pub lower : String → String
lower String.[] = ""
lower (String.◌∷◌ c s) = lower_char c ∷ᶜ lower s

-- `s.endsWith(p)`
unfoldable pub ends_with : String → String → Bool
ends_with String.[] p = p == ""
ends_with (String.◌∷◌ c s) p = (c ∷ᶜ s) == p || ends_with s p

-- `s.includes(p)`
unfoldable pub includes_text : String → String → Bool
includes_text p String.[] = starts_with String.[] p
includes_text p (String.◌∷◌ c s) = starts_with (String.◌∷◌ c s) p || includes_text p s

-- `/[a-z0-9_]/i`
unfoldable pub is_word_char : Char → Bool
is_word_char c =
    (leb 48 (code c) && leb (code c) 57)
    || ((leb 65 (code c) && leb (code c) 90)
        || ((leb 97 (code c) && leb (code c) 122) || nat_eq (code c) 95))

-- `s.replace(/[^a-z0-9_]/gi, '_')`
unfoldable pub underscored : String → String
underscored String.[] = ""
underscored (String.◌∷◌ c s) = (if is_word_char c then c else "_") ∷ᶜ underscored s

-- `s.replace(/[^a-z0-9_]/gi, '_').toLowerCase() || fallback`
unfoldable pub slug : String → String → String
slug s fallback = let t = lower (underscored s) in if t == "" then fallback else t

-- `' '.repeat(n)`
unfoldable pub spaces : ℕ → String
spaces zero = ""
spaces (suc n) = " " +s spaces n
