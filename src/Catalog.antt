-- ===== src/Catalog.antt =====
-- frontend/src/lib/catalog.ts: the catalog of components, which config keys name secrets, and the
-- configs that its forms yield. The curated and the generated entries are arguments.
-- A JavaScript value is a `Value`: arrays hold texts, as forms make them, and no value is an
-- object. `N` and `JsNumbers` stand for the numbers of JavaScript.
pub mod Fields
pub mod Curated
pub mod Yaml
pub mod Preview
pub mod Nested
pub mod Masked
pub mod Saved
pub mod Merge
pub mod Lossless
pub mod Checked
pub mod Form
mod Tests
use vortex_flow.Common.{
  last_part, ℕ, String, Bool, true, false, Option, none, some, List, [], ◌∷◌, ◌++◌, map, not, ◌==◌,
  ◌||◌, ◌&&◌, if◌then◌else◌, any, filter, has, Dict, get, insert, split, join, trim, lower,
  ends_with, includes_text, first_part, later_parts,
}

pub data FieldType : Type 0 where
  string_field number_field boolean_field array_field select_field textarea_field : FieldType

-- A value of `unknown` type; `missing` is `undefined`.
pub data Value (N : Type 0) : Type 0 where
  missing null_value : Value N
  text : String → Value N
  flag : Bool → Value N
  number : N → Value N
  items : List String → Value N

-- `Number(v)`, `a === b` and `String(n)`
pub record JsNumbers (N : Type 0) : Type 0 where
  pub to_number : Value N → N
  pub is_same : N → N → Bool
  pub show_number : N → String

pub record CatalogField (N : Type 0) : Type 0 where
  pub key : String
  pub label : String
  pub field_type : FieldType
  pub required : Bool
  pub default : Value N
  pub placeholder : Option String
  pub hint : Option String
  pub options : List (String × String)
  pub group : Option String
  pub generated : Bool

pub record CatalogComponent (N : Type 0) : Type 0 where
  pub component_type : String
  pub name : String
  pub description : String
  pub category : String
  pub fields : List (CatalogField N)
  pub generated : Bool

abbrev pub secret_words : List String
secret_words =
    "password" ∷ "passwd" ∷ "secret" ∷ "token" ∷ "api_key" ∷ "apikey" ∷ "access_key" ∷ "private_key"
    ∷ "credential" ∷ "sas_key" ∷ "saskey" ∷ "license_key" ∷ "auth_key" ∷ "authkey" ∷ "passphrase"
    ∷ "key_pass" ∷ "connection_string" ∷ "shared_key" ∷ "nkey" ∷ []

abbrev pub not_secret_leaves : List String
not_secret_leaves =
    "key" ∷ "key_field" ∷ "partition_key" ∷ "group_key" ∷ "routing_key" ∷ "message_key"
    ∷ "dedupe_key" ∷ "secret_name" ∷ []

unfoldable pub is_secret_key : String → Bool
is_secret_key dotkey =
    let small = lower dotkey in
    if has not_secret_leaves (lower (last_part (split "." dotkey)))
    then false
    else if ends_with small "_file" || (ends_with small "_field" || ends_with small "_path")
    then false
    else any (λ w. includes_text w small) secret_words

-- `val.split('\n').map((s) => s.trim()).filter(Boolean)`
abbrev pub lines_of : String → List String
lines_of s = filter (λ l. not (l == "")) (map trim (split "\n" s))

module _ {N : Type 0} where
  abbrev pub types_of : List (CatalogComponent N) → List String
  types_of cs = map (λ c. c.component_type) cs

  abbrev pub mark_generated : CatalogComponent N → CatalogComponent N
  mark_generated c = record {
    component_type = c.component_type;
    name = c.name;
    description = c.description;
    category = c.category;
    fields = c.fields;
    generated = true;
  }

  unfoldable pub merge_catalog :
      List (CatalogComponent N) → List (CatalogComponent N) → List (CatalogComponent N)
  merge_catalog curated generated =
      curated
      ++ map mark_generated (filter (λ c. not (has (types_of curated) c.component_type)) generated)

  -- `buildCatalogFromSchema`, where `gen` is what `schemaToCatalog` makes of the schema.
  abbrev pub build_catalog :
      List (CatalogComponent N) × List (CatalogComponent N)
      → List (CatalogComponent N) × List (CatalogComponent N)
      → List (CatalogComponent N) × List (CatalogComponent N)
  build_catalog curated gen = (merge_catalog curated.0 gen.0, merge_catalog curated.1 gen.1)

  -- `val === undefined || val === null || val === ''`
  abbrev pub is_blank : Value N → Bool
  is_blank missing = true
  is_blank null_value = true
  is_blank (text s) = s == ""
  is_blank (flag b) = false
  is_blank (number n) = false
  is_blank (items xs) = false

  abbrev pub or_missing : Option (Value N) → Value N
  or_missing none = missing
  or_missing (some v) = v

  -- `values[key]`
  unfoldable pub value_at : Dict (Value N) → String → Value N
  value_at values key = or_missing (get key values)

  -- `val === true || val === 'true'`
  abbrev pub is_true : Value N → Bool
  is_true missing = false
  is_true null_value = false
  is_true (text s) = s == "true"
  is_true (flag b) = b
  is_true (number n) = false
  is_true (items xs) = false

  abbrev pub split_lines : Value N → Value N
  split_lines missing = missing
  split_lines null_value = null_value
  split_lines (text s) = items (lines_of s)
  split_lines (flag b) = flag b
  split_lines (number n) = number n
  split_lines (items xs) = items xs

  abbrev pub is_empty_array : Value N → Bool
  is_empty_array missing = false
  is_empty_array null_value = false
  is_empty_array (text s) = false
  is_empty_array (flag b) = false
  is_empty_array (number n) = false
  is_empty_array (items []) = true
  is_empty_array (items (x ∷ xs)) = false

abbrev pub same_bool : Bool → Bool → Bool
same_bool true b = b
same_bool false b = not b

module _ {N : Type 0} (js : JsNumbers N) where
  -- `a === b`; two arrays are distinct objects.
  abbrev pub strictly_equal : Value N → Value N → Bool
  strictly_equal missing missing = true
  strictly_equal null_value null_value = true
  strictly_equal (text s) (text t) = s == t
  strictly_equal (flag b) (flag c) = same_bool b c
  strictly_equal (number m) (number n) = js.is_same m n
  strictly_equal a b = false

  unfoldable pub coerce : FieldType → Value N → Value N
  coerce string_field v = v
  coerce number_field v = number (js.to_number v)
  coerce boolean_field v = flag (is_true v)
  coerce array_field v = split_lines v
  coerce select_field v = v
  coerce textarea_field v = v

  -- One round of the loop: the value that is kept for the field, or none for `continue`.
  unfoldable pub kept_value : CatalogField N → Value N → Option (Value N)
  kept_value f v =
      let coerced = coerce f.field_type v in
      if is_blank v
      then none
      else if strictly_equal coerced f.default || is_empty_array coerced
      then none
      else some coerced

  abbrev pub store : String → Option (Value N) → Dict (Value N) → Dict (Value N)
  store key none out = out
  store key (some v) out = insert key v out

  unfoldable pub coerce_from :
      List (CatalogField N) → Dict (Value N) → Dict (Value N) → Dict (Value N)
  coerce_from [] values out = out
  coerce_from (f ∷ fs) values out =
      coerce_from fs values (store f.key (kept_value f (value_at values f.key)) out)

  unfoldable pub coerce_field_values : CatalogComponent N → Dict (Value N) → Dict (Value N)
  coerce_field_values component values = coerce_from component.fields values []
