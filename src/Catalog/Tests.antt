-- ===== src/Catalog/Tests.antt =====
-- The catalog at a small component: a secret, a port in a section, and a list.
use vortex_flow.Common.{
  last_part, ℕ, String, true, false, none, some, inl, [], ◌∷◌, ◌≡◌, refl, In, at_head, later,
  not-In-nil, subst, sym, nat_eq, show, Dict, get, insert, split, lower, translate, ends_with,
  includes_text, arith,
}
use vortex_flow.Catalog.{
  Value, text, number, missing, JsNumbers, CatalogField, CatalogComponent, FieldType, string_field,
  number_field, is_secret_key, coerce, kept_value, value_at, coerce_from, coerce_field_values,
}
use vortex_flow.Catalog.Yaml.{nest_dot_keys}
use vortex_flow.Catalog.Preview.{mask, sources, generate_yaml, flat_config}
use vortex_flow.Catalog.Nested.{find_path, is_apart, apart}
use vortex_flow.Catalog.Masked.{AgreesOn, generate_yaml_hides}
use vortex_flow.Catalog.Curated.{file_source}
use vortex_flow.Catalog.Checked.{find-nest_dot_keys-curated}

abbrev numbers : JsNumbers ℕ
numbers = record { to_number = λ v. 9000; is_same = nat_eq; show_number = show }

abbrev field : String → FieldType → CatalogField ℕ
field key kind = record {
  key = key;
  label = key;
  field_type = kind;
  required = false;
  default = missing;
  placeholder = none;
  hint = none;
  options = [];
  group = none;
  generated = false;
}

abbrev socket : CatalogComponent ℕ
socket = record {
  component_type = "socket";
  name = "Socket";
  description = "";
  category = "Network";
  fields = field "auth.password" string_field ∷ field "tls.port" number_field ∷ [];
  generated = false;
}

secret_keys :
    (is_secret_key "auth.password" ≡ true)
    × (is_secret_key "tls.key_file" ≡ false)
    × (is_secret_key "group_key" ≡ false)
unfolding is_secret_key lower translate ends_with includes_text last_part split
secret_keys = (refl, refl, refl)

abbrev flat : Dict (Value ℕ)
flat = ("tls.port", number 9000) ∷ ("tls.host", text "h") ∷ ("type", text "socket") ∷ []

flat-apart : is_apart flat ≡ true
unfolding is_apart apart split
flat-apart = refl

abbrev form : String → Dict (Value ℕ)
form password = ("auth.password", text password) ∷ ("tls.port", text "9000") ∷ []

password-agrees : AgreesOn numbers (form "a") (form "b") (field "auth.password" string_field)
unfolding is_secret_key lower translate ends_with includes_text last_part split value_at get
    kept_value coerce
password-agrees = record { open_value = λ s. ground arith; secret_value = λ s. refl }

port-agrees : AgreesOn numbers (form "a") (form "b") (field "tls.port" number_field)
unfolding value_at get
port-agrees = record { open_value = λ s. refl; secret_value = λ s. refl }

forms-agree : (f : CatalogField ℕ) → In f socket.fields → AgreesOn numbers (form "a") (form "b") f
forms-agree f (at_head e) = subst (AgreesOn numbers (form "a") (form "b")) (sym e) password-agrees
forms-agree f (later (at_head e)) =
    subst (AgreesOn numbers (form "a") (form "b")) (sym e) port-agrees
forms-agree f (later (later h)) = not-In-nil h

generate_yaml_hides_example :
    generate_yaml numbers (λ s. s) sources socket (form "a") "in"
    ≡ generate_yaml numbers (λ s. s) sources socket (form "b") "in"
generate_yaml_hides_example =
    generate_yaml_hides numbers (λ s. s) sources socket (form "a") (form "b") "in" forms-agree

abbrev file_form : Dict (Value ℕ)
file_form = ("multiline.mode", text "halt_with") ∷ []

mode-saved :
    get "multiline.mode" (coerce_field_values numbers (file_source (λ n. n)) file_form)
    ≡ some (text "halt_with")
unfolding coerce_field_values coerce_from value_at get kept_value coerce insert
mode-saved = refl

find-nest_dot_keys-curated_example :
    find_path
      (split "." "multiline.mode")
      (nest_dot_keys (flat_config numbers (file_source (λ n. n)) file_form))
    ≡ some (mask "multiline.mode" (text "halt_with"))
find-nest_dot_keys-curated_example =
    find-nest_dot_keys-curated numbers (λ n. n) (file_source (λ n. n)) file_form "multiline.mode"
      (text "halt_with") (inl (at_head refl)) mode-saved
