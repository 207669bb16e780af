-- ===== src/CatalogGen/Tests.antt =====
-- The generator on a small schema: one source with a group, an enum and a field that is declared twice.
use vortex_flow.Common.{
  zero, suc, ℕ, String, Bool, true, false, Option, none, some, List, [], ◌∷◌, ◌≡◌, refl, nat_eq,
  show, Dict, at_head, later, insert, get, map_from, slice_text, is_word_char, translate, is_space,
  last_part, split, trim, trim_end, trim_start,
}
use vortex_flow.Catalog.{
  CatalogField, CatalogComponent, Value, missing, flag, text, FieldType, number_field, select_field,
  boolean_field, JsNumbers, coerce, value_at,
}
use vortex_flow.Catalog.Form.{values_from_config, a_choice}
use vortex_flow.CatalogGen.Outcome.{returns, overflows}
use vortex_flow.CatalogGen.Json.{
  Json, NumberTests, string, boolean, array, elements_of, object_of, field,
}
use vortex_flow.CatalogGen.Texts.{
  humanize, first_sentence, capitalize, colons_to_space, link_at, link_end, runs_to_space, sentence,
  span_to, take_text, unlink,
}
use vortex_flow.CatalogGen.Build.{
  schema_to_catalog, definitions_of, build_kind, resolve_union, build_variants, read_parts,
  build_variant, build_component, build_entries, first_union, insert_sorted, is_better, sort_types,
}
use vortex_flow.CatalogGen.Nodes.{
  unwrap_option, enum_of_union, enum_of_unions, example_string, extract_enum, first_nested,
  scalar_type,
}
use vortex_flow.CatalogGen.Merging.{
  deref, deref_loop, merge_object, merge_parts, normalize, normalize_loop,
}
use vortex_flow.CatalogGen.Unions.{
  collapse_encoding, collapse_auth, collect_discriminator, push_choices, visit, visit_branches,
}
use vortex_flow.CatalogGen.Fields.{push_field}
use vortex_flow.CatalogGen.Emit.{emit_at, emit_found, emit_node, emit_scalar, emit_typed}
use vortex_flow.CatalogGen.Walk.{emit_field, walk_entries, walk_with}
use vortex_flow.CatalogGen.Ensures.{Ensures}
use vortex_flow.CatalogGen.Made.{IsTooDeep}
use vortex_flow.CatalogGen.Restored.{schema_to_catalog_restores}
use vortex_flow.CatalogGen.Sound.{IsSound, schema_to_catalog-IsSound}

abbrev numbers : NumberTests ℕ
numbers = record { is_falsy = λ n. nat_eq n 0; show_number = show }

abbrev before : String → String → Bool
before a b = false

abbrev ref_to : String → Json ℕ
ref_to name = object_of (("$ref", string name) ∷ [])

abbrev typed : String → Json ℕ
typed t = object_of (("type", string t) ∷ [])

abbrev many : List (Json ℕ) → Json ℕ
many vs = array (elements_of vs)

abbrev demo_config : Json ℕ
demo_config = object_of (
    (
      "properties",
      object_of (
          (
            "batch",
            object_of (
                (
                  "properties",
                  object_of (("max_bytes", typed "integer") ∷ ("type", typed "string") ∷ []),
                )
                ∷ []),
          )
          ∷ (
            "format",
            object_of (
                ("enum", many (string "a" ∷ string "b" ∷ []))
                ∷ ("description", string "The [format][f]. More.")
                ∷ []),
          )
          ∷ ("flag", object_of (("type", string "boolean") ∷ ("default", boolean true) ∷ []))
          ∷ []),
    )
    ∷ ("required", many (string "format" ∷ []))
    ∷ [])

abbrev variant : Json ℕ
variant = object_of (
    (
      "allOf",
      many (
          object_of (
            (
              "properties",
              object_of (("type", object_of (("const", string "demo_source") ∷ [])) ∷ []),
            )
            ∷ [])
          ∷ ref_to "#/definitions/demo"
          ∷ []),
    )
    ∷ [])

abbrev small_schema : Json ℕ
small_schema = object_of (
    (
      "definitions",
      object_of (
          ("demo", demo_config)
          ∷ (
            "vector::config::source::SourceOuter",
            object_of (("oneOf", many (variant ∷ variant ∷ [])) ∷ []),
          )
          ∷ (
            "vector::config::sink::SinkOuter<alloc::string::String>",
            object_of (("oneOf", many []) ∷ []),
          )
          ∷ []),
    )
    ∷ [])

abbrev plain_field : String → String → FieldType → Bool → Value ℕ → Option String → CatalogField ℕ
plain_field key label t required default group = record {
  key = key;
  label = label;
  field_type = t;
  required = required;
  default = default;
  placeholder = none;
  hint = none;
  options = [];
  group = group;
  generated = false;
}

abbrev demo_source : CatalogComponent ℕ
demo_source = record {
  component_type = "demo_source";
  name = "Demo source";
  description = "Vector demo_source component.";
  category = "Generated";
  fields =
      plain_field "batch.max_bytes" "Max bytes" number_field false missing (some "Reliability")
      ∷ record {
        key = "format";
        label = "Format";
        field_type = select_field;
        required = true;
        default = missing;
        placeholder = none;
        hint = some "The format.";
        options = ("a", "A") ∷ ("b", "B") ∷ [];
        group = none;
        generated = false;
      }
      ∷ plain_field "flag" "Flag" boolean_field false (flag true) none
      ∷ [];
  generated = true;
}

-- The two variants give one component, and the key `type` of the group gives no field.
what_is_made : schema_to_catalog numbers 5 before small_schema ≡ returns (demo_source ∷ [], [])
unfolding schema_to_catalog build_kind resolve_union deref deref_loop field map_from build_variants
    read_parts build_variant build_component merge_object slice_text unwrap_option collapse_encoding
    collapse_auth build_entries emit_field first_union insert_sorted is_better sort_types emit_at
    emit_found emit_node emit_scalar emit_typed push_field walk_entries walk_with enum_of_union
    enum_of_unions example_string extract_enum first_nested merge_parts normalize normalize_loop
    scalar_type capitalize colons_to_space first_sentence humanize link_at link_end runs_to_space
    sentence span_to take_text unlink collect_discriminator push_choices visit visit_branches
    is_word_char translate get insert is_space last_part split trim trim_end trim_start
what_is_made = refl

a_sentence : first_sentence "The [format][f]. More." ≡ "The format."
unfolding first_sentence take_text sentence unlink trim runs_to_space link_at span_to link_end
a_sentence = refl

schema_to_catalog-IsSound_example :
    Ensures
      (λ r. IsSound r.0 × IsSound r.1)
      (IsTooDeep numbers (definitions_of numbers 5 before small_schema) 5)
      (schema_to_catalog numbers 5 before small_schema)
schema_to_catalog-IsSound_example = schema_to_catalog-IsSound numbers 5 before small_schema

abbrev js_numbers : JsNumbers ℕ
js_numbers = record { to_number = λ v. 0; is_same = nat_eq; show_number = show }

abbrev stored : Dict (Value ℕ)
stored = ("format", text "b") ∷ []

schema_to_catalog_restores_example :
    coerce js_numbers select_field
      (value_at (values_from_config js_numbers demo_source stored) "format")
    ≡ value_at stored "format"
unfolding value_at get
schema_to_catalog_restores_example =
    schema_to_catalog_restores numbers js_numbers 5 before small_schema (demo_source ∷ []) []
      what_is_made demo_source stored _ (at_head refl) (later (at_head refl)) (a_choice "b")

abbrev cyclic_defs : Json ℕ
cyclic_defs = object_of (("c", object_of (("allOf", many (ref_to "c" ∷ [])) ∷ [])) ∷ [])

-- No stack is deep enough for a definition that is a part of itself.
cyclic_overflows : (stack : ℕ) → merge_object numbers cyclic_defs stack (ref_to "c") ≡ overflows
unfolding merge_object deref deref_loop field map_from get insert slice_text merge_parts
    unwrap_option
cyclic_overflows zero = refl
cyclic_overflows (suc stack) = rw (cyclic_overflows stack) refl
