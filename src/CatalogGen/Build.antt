-- ===== src/CatalogGen/Build.antt =====
-- frontend/src/lib/catalogGen.ts: `buildComponent`, `buildKind` and `schemaToCatalog`. `before` stands
-- for `a.localeCompare(b) < 0`.
use vortex_flow.Common.{
  ℕ, String, Bool, true, not, ◌==◌, ◌||◌, ◌&&◌, Option, none, some, List, [], ◌∷◌, has, Dict, get,
  insert, any, if◌then◌else◌, length, nat_eq, ltb, starts_with, ◌+s◌,
}
use vortex_flow.Catalog.{CatalogField, CatalogComponent}
use vortex_flow.CatalogGen.Outcome.{Outcome, returns, ◌>>=◌}
use vortex_flow.CatalogGen.Json.{
  Json, undefined, NumberTests, field, prop, elements, entries, object_of, is_string, string_of,
  string, truthy, or_value, guarded,
}
use vortex_flow.CatalogGen.Texts.{humanize}
use vortex_flow.CatalogGen.Nodes.{union_of}
use vortex_flow.CatalogGen.Merging.{deref, merge_object}
use vortex_flow.CatalogGen.Fields.{grouped_blocks, iterated, max_depth}
use vortex_flow.CatalogGen.Emit.{hint_of}
use vortex_flow.CatalogGen.Walk.{is_skipped, required_of, emit_field}
use vortex_flow.CatalogGen.Unions.{collapse_encoding, collapse_auth}

abbrev pub skip_types : List String
skip_types = "unit_test" ∷ "unit_test_stream" ∷ []

-- `s || fallback`
abbrev pub text_or : Option String → String → String
text_or none fallback = fallback
text_or (some s) fallback = if s == "" then fallback else s

-- The last texts that the parts of a variant name.
pub record Variant (N : Type 0) : Type 0 where
  pub config_ref : Json N
  pub type_name : Option String

abbrev pub or_type : Option String → Option String → Option String
or_type none old = old
or_type (some t) old = some t

module _ {N : Type 0} where
  unfoldable pub is_better : CatalogComponent N → CatalogComponent N → Bool
  is_better a b =
      let a_url = starts_with a.description "http" in
      let b_url = starts_with b.description "http" in
      if not (nat_eq (length a.fields) (length b.fields))
      then ltb (length b.fields) (length a.fields)
      else not a_url && b_url

  abbrev pub is_improved : Option (CatalogComponent N) → CatalogComponent N → Bool
  is_improved none component = true
  is_improved (some prev) component = is_better component prev

  -- `byType.set(...)`, where the component is new or better
  abbrev pub keep_better :
      CatalogComponent N → Dict (CatalogComponent N) → Dict (CatalogComponent N)
  keep_better component by_type =
      if is_improved (get component.component_type by_type) component
      then insert component.component_type component by_type
      else by_type

  -- `[...byType.values()].sort(...)`, a stable sort
  unfoldable pub insert_sorted :
      (String → String → Bool)
      → CatalogComponent N
      → List (CatalogComponent N)
      → List (CatalogComponent N)
  insert_sorted before x [] = x ∷ []
  insert_sorted before x (y ∷ ys) =
      if before x.component_type y.component_type then x ∷ y ∷ ys else y ∷ insert_sorted before x ys

  unfoldable pub sort_types :
      (String → String → Bool)
      → List (CatalogComponent N)
      → Dict (CatalogComponent N)
      → List (CatalogComponent N)
  sort_types before sorted [] = sorted
  sort_types before sorted ((k, c) ∷ d) = sort_types before (insert_sorted before c sorted) d

module _ {N : Type 0} (js : NumberTests N) (defs : Json N) (stack : ℕ) where
  -- The loop of `buildComponent`.
  unfoldable pub build_entries :
      Bool
      → Bool
      → List (Json N)
      → Dict (Json N)
      → List (CatalogField N)
      → Outcome (List (CatalogField N))
  build_entries has_encoding has_auth required [] fields = returns fields
  build_entries has_encoding has_auth required ((name, raw) ∷ rest) fields =
      let next =
        λ (fs : List (CatalogField N)). build_entries has_encoding has_auth required rest fs in
      if name == "type" || ((name == "encoding" && has_encoding) || (name == "auth" && has_auth))
      then next fields
      else (deref js defs raw >>= λ child. prop "_metadata" child >>= λ meta.
          if is_skipped js defs stack child meta
          then next fields
          else (emit_field js defs stack max_depth name child (any (is_string name) required)
                (get name grouped_blocks) fields
              >>= next))

  unfoldable pub build_component : String → Json N → Json N → Outcome (CatalogComponent N)
  build_component type_name config_ref description = do
    config ← merge_object js defs stack (object_of (("$ref", config_ref) ∷ []))
    encoded ← collapse_encoding js defs stack config []
    authed ← collapse_auth js defs stack config encoded.0
    required ← required_of js defs stack config
    fields ←
        build_entries encoded.1 authed.1 required (entries (field "properties" config)) authed.0
    hint ← hint_of js defs stack description
    returns (record {
      component_type = type_name;
      name = humanize type_name;
      description = text_or hint ("Vector " +s (type_name +s " component."));
      category = "Generated";
      fields = fields;
      generated = true;
    })

  unfoldable pub first_union : Json N → List (Json N) → Outcome (Json N)
  first_union outer [] = returns outer
  first_union outer (part ∷ parts) =
      let next = first_union outer parts in
      deref js defs part >>= λ p.
      prop "oneOf" p >>= λ one_of. if truthy js (union_of js p) then returns p else next

  abbrev pub union_in : Json N → Option (List (Json N)) → Outcome (Json N)
  union_in outer none = returns outer
  union_in outer (some parts) = first_union outer parts

  unfoldable pub resolve_union : String → Outcome (Json N)
  resolve_union outer_ref = deref js defs (object_of (("$ref", string outer_ref) ∷ [])) >>= λ outer.
      if truthy js (union_of js outer)
      then returns outer
      else union_in outer (elements (field "allOf" outer))

  -- What `for (const x of v || [])` runs through.
  abbrev pub iterated_or_nil : Json N → Outcome (List (Json N))
  iterated_or_nil v = if truthy js v then iterated v else returns []

  unfoldable pub read_parts : List (Json N) → Variant N → Outcome (Variant N)
  read_parts [] v = returns v
  read_parts (part ∷ parts) v = prop "$ref" part >>= λ ref. read_parts parts (record {
    config_ref = or_value js ref v.config_ref;
    type_name =
        or_type (string_of (guarded js "const" (guarded js "type" (field "properties" part))))
          v.type_name;
  })

  unfoldable pub build_variant :
      Option String
      → Json N
      → Json N
      → Dict (CatalogComponent N)
      → Outcome (Dict (CatalogComponent N))
  build_variant none config_ref description by_type = returns by_type
  build_variant (some type_name) config_ref description by_type =
      if not (truthy js config_ref) || (type_name == "" || has skip_types type_name)
      then returns by_type
      else (build_component type_name config_ref description >>= λ component.
          returns (keep_better component by_type))

  unfoldable pub build_variants :
      List (Json N) → Dict (CatalogComponent N) → Outcome (Dict (CatalogComponent N))
  build_variants [] by_type = returns by_type
  build_variants (variant ∷ variants) by_type = prop "allOf" variant >>= λ all_of.
      iterated_or_nil all_of >>= λ parts.
      read_parts parts (record { config_ref = undefined; type_name = none }) >>= λ v.
      build_variant v.type_name v.config_ref (field "description" variant) by_type >>= λ next.
      build_variants variants next

  unfoldable pub build_kind :
      (String → String → Bool) → String → Outcome (List (CatalogComponent N))
  build_kind before outer_ref = resolve_union outer_ref >>= λ union.
      iterated_or_nil (union_of js union) >>= λ variants.
      build_variants variants [] >>= λ by_type. returns (sort_types before [] by_type)

module _ {N : Type 0} (js : NumberTests N) (stack : ℕ) (before : String → String → Bool) where
  -- `(schema && schema.definitions) || {}`
  abbrev pub definitions_of : Json N → Json N
  definitions_of schema = or_value js (guarded js "definitions" schema) (object_of [])

  unfoldable pub schema_to_catalog :
      Json N → Outcome (List (CatalogComponent N) × List (CatalogComponent N))
  schema_to_catalog schema = do
    sources ←
        build_kind js (definitions_of schema) stack before "vector::config::source::SourceOuter"
    sinks ←
        build_kind js (definitions_of schema) stack before
          "vector::config::sink::SinkOuter<alloc::string::String>"
    returns (sources, sinks)
