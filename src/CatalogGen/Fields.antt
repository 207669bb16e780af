-- ===== src/CatalogGen/Fields.antt =====
-- frontend/src/lib/catalogGen.ts: `pushField`, and the fields that are made of types and defaults.
use vortex_flow.Common.{
  ℕ, String, Bool, false, ◌==◌, ◌||◌, Option, none, some, List, [], ◌∷◌, ◌++◌, map, Dict,
  if◌then◌else◌, any, ◌∷ᶜ◌,
}
use vortex_flow.Catalog.{
  CatalogField, Value, missing, text, flag, number, FieldType, string_field, number_field,
  boolean_field, array_field, select_field, textarea_field,
}
use vortex_flow.CatalogGen.Outcome.{Outcome, returns, throws}
use vortex_flow.CatalogGen.Json.{
  list_of, Json, undefined, null, boolean, num, string, array, object, is_string, is_undefined,
}
use vortex_flow.CatalogGen.Texts.{humanize}

abbrev pub grouped_blocks : Dict String
grouped_blocks =
    ("batch", "Reliability")
    ∷ ("buffer", "Reliability")
    ∷ ("acknowledgements", "Reliability")
    ∷ ("healthcheck", "Reliability")
    ∷ ("request", "Request")
    ∷ ("tls", "TLS")
    ∷ ("encoding", "Encoding")
    ∷ ("decoding", "Encoding")
    ∷ ("framing", "Encoding")
    ∷ ("auth", "Auth")
    ∷ []

abbrev pub max_depth : ℕ
max_depth = 2

abbrev pub humanize_option : String → String × String
humanize_option v = (v, humanize v)

module _ {N : Type 0} where
  unfoldable pub push_field : List (CatalogField N) → CatalogField N → List (CatalogField N)
  push_field fields f = if any (λ x. x.key == f.key) fields then fields else fields ++ (f ∷ [])

  -- `typeof d === 'string' ? d : undefined`, and so for numbers and truth values
  abbrev pub string_default : Json N → Value N
  string_default undefined = missing
  string_default null = missing
  string_default (boolean b) = missing
  string_default (num n) = missing
  string_default (string s) = text s
  string_default (array vs) = missing
  string_default (object es) = missing

  abbrev pub number_default : Json N → Value N
  number_default undefined = missing
  number_default null = missing
  number_default (boolean b) = missing
  number_default (num n) = number n
  number_default (string s) = missing
  number_default (array vs) = missing
  number_default (object es) = missing

  abbrev pub boolean_default : Json N → Value N
  boolean_default undefined = missing
  boolean_default null = missing
  boolean_default (boolean b) = flag b
  boolean_default (num n) = missing
  boolean_default (string s) = missing
  boolean_default (array vs) = missing
  boolean_default (object es) = missing

  -- The default of a field of a scalar type.
  abbrev pub typed_default : FieldType → Json N → Value N
  typed_default string_field d = string_default d
  typed_default number_field d = number_default d
  typed_default boolean_field d = boolean_default d
  typed_default array_field d = missing
  typed_default select_field d = missing
  typed_default textarea_field d = missing

  -- What `new Set(v)` holds of texts, where `v` can be run through; the characters of a text, too.
  abbrev pub letters : String → List (Json N)
  letters String.[] = []
  letters (String.◌∷◌ c s) = string (c ∷ᶜ "") ∷ letters s

  abbrev pub iterated : Json N → Outcome (List (Json N))
  iterated undefined = throws
  iterated null = throws
  iterated (boolean b) = throws
  iterated (num n) = throws
  iterated (string s) = returns (letters s)
  iterated (array vs) = returns (list_of vs)
  iterated (object es) = throws

-- What the fields of one node share.
pub record FieldParts : Type 0 where
  pub key : String
  pub label : String
  pub required : Bool
  pub group : Option String
  pub hint : Option String
  pub placeholder : Option String

module _ {N : Type 0} where
  abbrev pub select_of : FieldParts → Value N → List String → CatalogField N
  select_of p default enum_vals = record {
    key = p.key;
    label = p.label;
    field_type = select_field;
    required = p.required;
    default = default;
    placeholder = none;
    hint = p.hint;
    options = map humanize_option enum_vals;
    group = p.group;
    generated = false;
  }

  abbrev pub plain_of : FieldParts → FieldType → Value N → CatalogField N
  plain_of p t default = record {
    key = p.key;
    label = p.label;
    field_type = t;
    required = p.required;
    default = default;
    placeholder = p.placeholder;
    hint = p.hint;
    options = [];
    group = p.group;
    generated = false;
  }

  -- The type of a field from that of its node, for nodes that are no objects; none where there is no
  -- field. An array is looked at further.
  abbrev pub scalar_field : Json N → Option FieldType
  scalar_field t =
      if is_string "boolean" t
      then some boolean_field
      else if is_string "integer" t || is_string "number" t
      then some number_field
      else if is_string "array" t
      then some array_field
      else if is_string "string" t || is_undefined t
      then some string_field
      else none
