-- ===== src/CatalogGen/Json.antt =====
-- The values that `JSON.parse` yields, with `undefined`, and what JavaScript does with them. `N` stands
-- for the numbers. The names that every value of JavaScript has, such as `toString` or `length`, are
-- not among its entries. Of a text, a character of two UTF-16 code units has two entries, each of which
-- holds the character: half of one is no text here.
use vortex_flow.Common.{
  ℕ, suc, ◌+◌, show, nat_eq, ◌∷ᶜ◌, String, Bool, true, false, not, ◌==◌, Option, none, some, List,
  [], ◌∷◌, Dict, get, if◌then◌else◌, filter, map_from,
}
use vortex_flow.CatalogGen.Texts.{width}
use vortex_flow.CatalogGen.Outcome.{Outcome, returns, throws}

mutual
  pub data Json (N : Type 0) : Type 0 where
    undefined null : Json N
    boolean : Bool → Json N
    num : N → Json N
    string : String → Json N
    array : Elements N → Json N
    object : Entries N → Json N

  pub data Elements (N : Type 0) : Type 0 where
    nil : Elements N
    cons : Json N → Elements N → Elements N

  pub data Entries (N : Type 0) : Type 0 where
    end : Entries N
    entry : String → Json N → Entries N → Entries N

-- Whether a number counts as false, and `String(n)`.
pub record NumberTests (N : Type 0) : Type 0 where
  pub is_falsy : N → Bool
  pub show_number : N → String

module _ {N : Type 0} where
  abbrev pub list_of : Elements N → List (Json N)
  list_of nil = []
  list_of (cons v vs) = v ∷ list_of vs

  abbrev pub dict_of : Entries N → Dict (Json N)
  dict_of end = []
  dict_of (entry k v es) = (k, v) ∷ dict_of es

  abbrev pub elements_of : List (Json N) → Elements N
  elements_of [] = nil
  elements_of (v ∷ vs) = cons v (elements_of vs)

  abbrev pub entries_of : Dict (Json N) → Entries N
  entries_of [] = end
  entries_of ((k, v) ∷ d) = entry k v (entries_of d)

  abbrev pub object_of : Dict (Json N) → Json N
  object_of d = object (entries_of d)

  -- The entries of an array: its elements under their indices, from `i` on.
  abbrev pub indexed : ℕ → List (Json N) → Dict (Json N)
  indexed i [] = []
  indexed i (v ∷ vs) = (show i, v) ∷ indexed (suc i) vs

  -- Those of a text: its UTF-16 code units.
  abbrev pub indexed_text : ℕ → String → Dict (Json N)
  indexed_text i String.[] = []
  indexed_text i (String.◌∷◌ c s) =
      let rest = indexed_text (i + width c) s in
      let one = string (c ∷ᶜ "") in
      if nat_eq (width c) 2
      then (show i, one) ∷ (show (suc i), one) ∷ rest
      else (show i, one) ∷ rest

  -- `Object.entries(v)`
  abbrev pub entries : Json N → Dict (Json N)
  entries undefined = []
  entries null = []
  entries (boolean b) = []
  entries (num n) = []
  entries (string s) = indexed_text 0 s
  entries (array vs) = indexed 0 (list_of vs)
  entries (object es) = dict_of es

  abbrev pub or_undefined : Option (Json N) → Json N
  or_undefined none = undefined
  or_undefined (some v) = v

  -- `v[k]`, on a value that is not null or undefined.
  unfoldable pub field : String → Json N → Json N
  unfolding get
  field k v = or_undefined (get k (entries v))

  abbrev pub is_nullish : Json N → Bool
  is_nullish undefined = true
  is_nullish null = true
  is_nullish (boolean b) = false
  is_nullish (num n) = false
  is_nullish (string s) = false
  is_nullish (array vs) = false
  is_nullish (object es) = false

  -- `v[k]`
  abbrev pub prop : String → Json N → Outcome (Json N)
  prop k v = if is_nullish v then throws else returns (field k v)

  -- The elements, where `Array.isArray(v)`.
  abbrev pub elements : Json N → Option (List (Json N))
  elements undefined = none
  elements null = none
  elements (boolean b) = none
  elements (num n) = none
  elements (string s) = none
  elements (array vs) = some (list_of vs)
  elements (object es) = none

  -- The text, where `typeof v === 'string'`.
  abbrev pub string_of : Json N → Option String
  string_of undefined = none
  string_of null = none
  string_of (boolean b) = none
  string_of (num n) = none
  string_of (string s) = some s
  string_of (array vs) = none
  string_of (object es) = none

  -- `v === s`
  abbrev pub is_string : String → Json N → Bool
  is_string t undefined = false
  is_string t null = false
  is_string t (boolean b) = false
  is_string t (num n) = false
  is_string t (string s) = s == t
  is_string t (array vs) = false
  is_string t (object es) = false

  abbrev pub is_undefined : Json N → Bool
  is_undefined undefined = true
  is_undefined null = false
  is_undefined (boolean b) = false
  is_undefined (num n) = false
  is_undefined (string s) = false
  is_undefined (array vs) = false
  is_undefined (object es) = false

  -- `{ ...a, ...b }`
  abbrev pub spread : Json N → Json N → Json N
  spread a b = object_of (map_from (entries a) (entries b))

  -- `const { k, ...rest } = v`
  abbrev pub without_key : String → Json N → Json N
  without_key k v = object_of (filter (λ e. not (e.0 == k)) (entries v))

module _ {N : Type 0} (js : NumberTests N) where
  abbrev pub truthy : Json N → Bool
  truthy undefined = false
  truthy null = false
  truthy (boolean b) = b
  truthy (num n) = not (js.is_falsy n)
  truthy (string s) = not (s == "")
  truthy (array vs) = true
  truthy (object es) = true

  -- `a || b`
  abbrev pub or_value : Json N → Json N → Json N
  or_value a b = if truthy a then a else b

  -- `a && a[k]`
  abbrev pub guarded : String → Json N → Json N
  guarded k a = if truthy a then field k a else a
