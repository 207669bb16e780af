-- ===== src/CatalogGen/Sound.antt =====
-- `schemaToCatalog` on any schema: its outcome is a catalog without doubles, a `TypeError`, or an
-- overflow of the stack that a chain below the definitions of the schema causes.
use vortex_flow.Common.{
  ℕ, String, Bool, true, false, not, ◌==◌, ◌||◌, ◌&&◌, Option, none, some, List, [], ◌∷◌, ◌≡◌, refl,
  ap, ◌∙◌, arith, if◌then◌else◌, Dict, keys, get, insert, has, All, Distinct,
}
use vortex_flow.Catalog.{CatalogComponent, types_of}
use vortex_flow.CatalogGen.Json.{Json, NumberTests, field, truthy}
use vortex_flow.CatalogGen.Nodes.{union_of}
use vortex_flow.CatalogGen.Build.{
  skip_types, is_improved, keep_better, build_variant, build_variants, build_kind,
  schema_to_catalog, definitions_of,
}
use vortex_flow.CatalogGen.Ensures.{Ensures, returned, Ensures-if_eq, Ensures-bind}
use vortex_flow.CatalogGen.Reached.{
  Reached, outer_refs, no_value, prop-Reached, read_parts-Reached, resolve_union-Reached,
  iterated_or_nil-Reached, union_of-Reached,
}
use vortex_flow.CatalogGen.Forms.{IsForm}
use vortex_flow.CatalogGen.Made.{IsMade, IsTooDeep, build_component-IsMade}
use vortex_flow.CatalogGen.Sorted.{Distinct-insert, All-insert, sort_types-Distinct, sort_types-All}

-- A type that the catalog may have: a name, and not one of a test.
abbrev pub is_type_kept : String → Bool
is_type_kept t = not (t == "") && not (has skip_types t)

-- What holds of each component.
pub record IsEntry {N : Type 0} (c : CatalogComponent N) : Type 0 where
  pub form : IsForm c.fields
  pub kept : is_type_kept c.component_type ≡ true
  pub marked : c.generated ≡ true

pub record IsSound {N : Type 0} (cs : List (CatalogComponent N)) : Type 0 where
  pub distinct : Distinct (types_of cs)
  pub entries : All IsEntry cs

module _ {N : Type 0} (js : NumberTests N) (defs : Json N) (stack : ℕ) where
  -- `byType`: each component stands under its type.
  record IsByType (d : Dict (CatalogComponent N)) : Type 0 where
    distinct : Distinct (keys d)
    keyed : All (λ e. e.1.component_type ≡ e.0) d
    entries : All (λ e. IsEntry e.1) d

  keep_better-IsByType :
      (t : String) (c : CatalogComponent N) (d : Dict (CatalogComponent N))
      → is_type_kept t ≡ true
      → IsMade js defs stack t c
      → IsByType d
      → IsByType (keep_better c d)
  keep_better-IsByType t c d kept made h =
      elim (is_improved (get c.component_type d) c)
        as (λ b. IsByType (if b then insert c.component_type c d else d)) [
          | true ↦ record {
            distinct = Distinct-insert c.component_type c d h.distinct;
            keyed = All-insert c.component_type c (λ e. e.1.component_type ≡ e.0) d h.keyed refl;
            entries =
                All-insert c.component_type c (λ e. IsEntry e.1) d h.entries
                  (record {
                    form = made.form;
                    kept = ap is_type_kept made.of_type ∙ kept;
                    marked = made.marked;
                  });
          }
          | false ↦ h
        ]

  build_variant-IsByType :
      (t : Option String) (config_ref description : Json N) (d : Dict (CatalogComponent N))
      → Reached js defs stack config_ref
      → IsByType d
      → Ensures IsByType
          (IsTooDeep js defs stack)
          (build_variant js defs stack t config_ref description d)
  unfolding build_variant
  build_variant-IsByType none config_ref description d r h = returned h
  build_variant-IsByType (some t) config_ref description d r h =
      Ensures-if_eq (not (truthy js config_ref) || (t == "" || has skip_types t)) _ _
        (λ e. returned h)
        (λ ne.
          Ensures-bind _ _ (build_component-IsMade js defs stack t config_ref description r)
            (λ c made. returned (keep_better-IsByType t c d (ground arith) made h)))

  build_variants-IsByType :
      (variants : List (Json N)) (d : Dict (CatalogComponent N))
      → All (Reached js defs stack) variants
      → IsByType d
      → Ensures IsByType (IsTooDeep js defs stack) (build_variants js defs stack variants d)
  unfolding build_variants
  build_variants-IsByType [] d rs h = returned h
  build_variants-IsByType (variant ∷ variants) d rs h =
      Ensures-bind _ _ (prop-Reached js defs stack "allOf" variant rs.0) (λ all_of ra.
        Ensures-bind _ _ (iterated_or_nil-Reached js defs stack all_of ra) (λ parts rp.
          Ensures-bind _ _ (read_parts-Reached js defs stack parts _ rp no_value) (λ v rv.
            Ensures-bind _ _
              (build_variant-IsByType v.type_name v.config_ref (field "description" variant) d rv h)
              (λ d k. build_variants-IsByType variants d rs.1 k))))

  pub build_kind-IsSound :
      (before : String → String → Bool) (outer_ref : String)
      → has outer_refs outer_ref ≡ true
      → Ensures IsSound (IsTooDeep js defs stack) (build_kind js defs stack before outer_ref)
  unfolding build_kind
  build_kind-IsSound before outer_ref named =
      Ensures-bind _ _ (resolve_union-Reached js defs stack outer_ref named) (λ union r.
        Ensures-bind _ _
          (iterated_or_nil-Reached js defs stack (union_of js union)
            (union_of-Reached js defs stack r))
          (λ variants rs.
            Ensures-bind _ _
              (build_variants-IsByType variants [] rs
                (record { distinct = tt; keyed = tt; entries = tt }))
              (λ d h. returned (record {
                distinct = sort_types-Distinct before [] d tt h.distinct h.keyed (apart d);
                entries = sort_types-All before IsEntry [] d tt h.entries;
              }))))
    where
      apart : (d : Dict (CatalogComponent N)) → All (λ e. has [] e.0 ≡ false) d
      apart [] = tt
      apart (e ∷ d) = (refl, apart d)

-- Whatever the schema holds: where `schemaToCatalog` returns, no type stands twice among the sources or
-- among the sinks, none is empty or that of a unit test, and the fields of each component have distinct
-- keys, none of them `type`, options just where they are selects, and defaults of their types. Where it
-- overflows a stack of `stack` nested calls of `mergeObject` or of `visit`, a value that the code reaches
-- from the definitions of the schema starts a chain of as many `allOf` parts within parts or union
-- branches within branches. Else it throws.
pub schema_to_catalog-IsSound :
    {N : Type 0} (js : NumberTests N) (stack : ℕ) (before : String → String → Bool)
    (schema : Json N)
    → Ensures
        (λ r. IsSound r.0 × IsSound r.1)
        (IsTooDeep js (definitions_of js stack before schema) stack)
        (schema_to_catalog js stack before schema)
unfolding schema_to_catalog
schema_to_catalog-IsSound js stack before schema =
    Ensures-bind _ _ (build_kind-IsSound js _ stack before _ refl) (λ sources h.
      Ensures-bind _ _ (build_kind-IsSound js _ stack before _ refl) (λ sinks k. returned (h, k)))
