-- ===== src/CatalogGen/Unions.antt =====
-- frontend/src/lib/catalogGen.ts: `collectDiscriminator`, `collapseEncoding` and `collapseAuth`. The
-- stack of the engine holds `stack` nested calls of `visit`, and as many of `mergeObject`. A `$ref`
-- that is no text is not kept in `seen`: the visit that follows throws on it.
use vortex_flow.Common.{
  ℕ, zero, suc, String, Bool, true, false, ◌==◌, Option, none, some, List, [], ◌∷◌, map, has, add,
  if◌then◌else◌,
}
use vortex_flow.Catalog.{CatalogField, Value, missing, text, select_field}
use vortex_flow.CatalogGen.Outcome.{Outcome, returns, overflows, ◌>>=◌}
use vortex_flow.CatalogGen.Json.{
  Json, undefined, null, boolean, num, string, array, object, NumberTests, field, elements,
  string_of, truthy, guarded,
}
use vortex_flow.CatalogGen.Nodes.{unwrap_option}
use vortex_flow.CatalogGen.Merging.{deref, merge_object}
use vortex_flow.CatalogGen.Fields.{humanize_option, push_field}

-- `out` and `seen`
pub record Found : Type 0 where
  pub out : List String
  pub seen : List String

-- A select field of a group, with nothing else.
abbrev pub choice_field :
    {N : Type 0} → String → String → String → Value N → List (String × String) → CatalogField N
choice_field key label group default options = record {
  key = key;
  label = label;
  field_type = select_field;
  required = false;
  default = default;
  placeholder = none;
  hint = none;
  options = options;
  group = some group;
  generated = false;
}

abbrev pub add_option : Option String → Found → Found
add_option none f = f
add_option (some s) f = record f { out = add f.out s }

abbrev pub is_seen : Option String → Found → Bool
is_seen none f = false
is_seen (some ref) f = has f.seen ref

abbrev pub note_seen : Option String → Found → Found
note_seen none f = f
note_seen (some ref) f = record f { seen = add f.seen ref }

module _ {N : Type 0} where
  -- `raw && typeof raw === 'object'`
  abbrev pub is_object_like : Json N → Bool
  is_object_like undefined = false
  is_object_like null = false
  is_object_like (boolean b) = false
  is_object_like (num n) = false
  is_object_like (string s) = false
  is_object_like (array vs) = true
  is_object_like (object es) = true

module _ {N : Type 0} (js : NumberTests N) (defs : Json N) where
  -- The `const` of the property, where it is a text.
  abbrev pub discriminator : String → Json N → Option String
  discriminator prop_name n =
      string_of (guarded js "const" (guarded js prop_name (field "properties" n)))

  -- The `$ref` of a branch, where it counts and is a text.
  abbrev pub sig_of : Json N → Option String
  sig_of branch = elim (string_of (guarded js "$ref" branch)) [
    | none ↦ none
    | some ref ↦ if ref == "" then none else some ref
  ]

  unfoldable pub visit_branches :
      (Json N → Found → Outcome Found) → List (Json N) → Found → Outcome Found
  visit_branches visit [] f = returns f
  visit_branches visit (b ∷ bs) f =
      let next = λ (g : Found). visit_branches visit bs g in
      if is_seen (sig_of b) f then next f else (visit b (note_seen (sig_of b) f) >>= next)

  abbrev pub visit_union :
      (Json N → Found → Outcome Found) → Option (List (Json N)) → Found → Outcome Found
  visit_union visit none f = returns f
  visit_union visit (some bs) f = visit_branches visit bs f

  abbrev pub deref_if : Json N → Outcome (Json N)
  deref_if n = if truthy js (field "$ref" n) then deref js defs n else returns n

  unfoldable pub visit : String → ℕ → Json N → Found → Outcome Found
  visit prop_name zero raw f = overflows
  visit prop_name (suc stack) raw f =
      let deeper = λ (r : Json N) (g : Found). visit prop_name stack r g in
      if is_object_like raw
      then (deref_if (unwrap_option js raw) >>= λ n.
          visit_union deeper (elements (field "oneOf" n)) (add_option (discriminator prop_name n) f)
          >>= λ g. visit_union deeper (elements (field "anyOf" n)) g >>= λ h.
              visit_union deeper (elements (field "allOf" n)) h)
      else returns f

  unfoldable pub collect_discriminator : ℕ → String → Json N → Outcome (List String)
  collect_discriminator stack prop_name node =
      visit prop_name stack node (record { out = []; seen = [] }) >>= λ f. returns f.out

  -- The fields, and whether a field was made.
  unfoldable pub push_choices :
      (List String → CatalogField N)
      → List String
      → List (CatalogField N)
      → List (CatalogField N) × Bool
  push_choices make [] fields = (fields, false)
  push_choices make (v ∷ vs) fields = (push_field fields (make (v ∷ vs)), true)

  abbrev pub encoding_field : List String → CatalogField N
  encoding_field codecs =
      choice_field "encoding.codec" "Encoding" "Encoding" missing (map humanize_option codecs)

  abbrev pub auth_field : List String → CatalogField N
  auth_field strategies =
      choice_field "auth.strategy" "Auth strategy" "Auth" (text "")
        (("", "None") ∷ map humanize_option strategies)

  unfoldable pub collapse_encoding :
      ℕ → Json N → List (CatalogField N) → Outcome (List (CatalogField N) × Bool)
  collapse_encoding stack obj_node fields = merge_object js defs stack obj_node >>= λ node.
      if truthy js (guarded js "encoding" (field "properties" node))
      then (deref js defs (guarded js "encoding" (field "properties" node)) >>= λ d.
          collect_discriminator stack "codec" d >>= λ found.
          returns (push_choices encoding_field found fields))
      else returns (fields, false)

  unfoldable pub collapse_auth :
      ℕ → Json N → List (CatalogField N) → Outcome (List (CatalogField N) × Bool)
  collapse_auth stack obj_node fields = merge_object js defs stack obj_node >>= λ node.
      if truthy js (guarded js "auth" (field "properties" node))
      then (deref js defs (guarded js "auth" (field "properties" node)) >>= λ d.
          collect_discriminator stack "strategy" (unwrap_option js d) >>= λ found.
          returns (push_choices auth_field found fields))
      else returns (fields, false)
