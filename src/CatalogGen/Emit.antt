-- ===== src/CatalogGen/Emit.antt =====
-- frontend/src/lib/catalogGen.ts: `emitField`, up to the walk of the properties of its node. `stack` is
-- how many nested calls of `mergeObject` the engine can hold.
use vortex_flow.Common.{
  ℕ, ◌+◌, String, Bool, not, ◌||◌, ◌&&◌, Option, none, some, List, [], ◌∷◌, if◌then◌else◌, ltb,
  split, last_part,
}
use vortex_flow.Catalog.{CatalogField, missing, FieldType, array_field, textarea_field}
use vortex_flow.CatalogGen.Outcome.{Outcome, returns, throws, ◌>>=◌}
use vortex_flow.CatalogGen.Json.{
  Json, undefined, null, boolean, num, string, array, object, NumberTests, field, prop, entries,
  is_string, string_of, truthy, or_value, guarded,
}
use vortex_flow.CatalogGen.Texts.{humanize, first_sentence}
use vortex_flow.CatalogGen.Nodes.{is_nil, extract_enum, scalar_type, example_string, unwrap_option}
use vortex_flow.CatalogGen.Merging.{deref, merge_object, normalize}
use vortex_flow.CatalogGen.Fields.{
  max_depth, push_field, string_default, typed_default, FieldParts, select_of, plain_of,
  scalar_field,
}

module _ {N : Type 0} (js : NumberTests N) (defs : Json N) (stack : ℕ) where
  -- `humanize(v)`, on a value that is no text, throws.
  abbrev pub humanize_value : Json N → Outcome String
  humanize_value undefined = throws
  humanize_value null = throws
  humanize_value (boolean b) = throws
  humanize_value (num n) = throws
  humanize_value (string s) = returns (humanize s)
  humanize_value (array vs) = throws
  humanize_value (object es) = throws

  abbrev pub sentence_of : Option String → Outcome (Option String)
  sentence_of none = throws
  sentence_of (some s) = returns (some (first_sentence s))

  -- `firstSentence(desc)`
  abbrev pub hint_of : Json N → Outcome (Option String)
  hint_of desc = if truthy js desc then sentence_of (string_of desc) else returns none

  -- `it`
  abbrev pub array_items : Json N → Outcome (Json N)
  array_items node =
      if truthy js (field "items" node)
      then (deref js defs (field "items" node) >>= λ d.
          if truthy js (unwrap_option js d)
          then scalar_type (unwrap_option js d)
          else returns undefined)
      else returns undefined

  -- The end of `emitField`, for a node that is no object.
  unfoldable pub emit_scalar :
      FieldParts
      → Json N
      → Option FieldType
      → List (CatalogField N)
      → Outcome (List (CatalogField N))
  emit_scalar p node none fields = returns fields
  emit_scalar p node (some array_field) fields = array_items node >>= λ it.
      returns (
        if is_string "object" it
        then fields
        else push_field fields (plain_of p array_field missing))
  emit_scalar p node (some t) fields =
      returns (push_field fields (plain_of p t (typed_default t (field "default" node))))

  -- `hasProps`, on `merged.properties`
  abbrev pub has_props : Json N → Bool
  has_props properties = truthy js properties && not (is_nil (entries properties))

  abbrev pub is_map : Json N → Json N → Bool
  is_map node merged =
      truthy js
        (or_value js (field "additionalProperties" node) (field "additionalProperties" merged))
      && not (has_props (field "properties" merged))

  -- `cap`, against the depth of the children
  abbrev pub is_deeper : Option String → ℕ → Bool
  is_deeper none next_depth = ltb max_depth next_depth
  is_deeper (some group) next_depth = ltb 1 next_depth

  -- The middle of `emitField`; `walk` is the call of `walkProperties` one level deeper.
  unfoldable pub emit_typed :
      (Json N → List (CatalogField N) → String → Option String → Outcome (List (CatalogField N)))
      → FieldParts
      → ℕ
      → Json N
      → Json N
      → Json N
      → List (CatalogField N)
      → Outcome (List (CatalogField N))
  emit_typed walk p depth node t merged fields =
      if is_string "object" t || (has_props (field "properties" merged) || is_map node merged)
      then (if is_map node merged
          then returns (push_field fields (plain_of p textarea_field missing))
          else if has_props (field "properties" merged)
          then (if is_deeper p.group (depth + 1)
              then returns fields
              else walk merged fields p.key p.group)
          else returns fields)
      else emit_scalar p node (scalar_field t) fields

  abbrev pub merged_of : Json N → Outcome (Json N)
  merged_of node =
      if truthy js (field "allOf" node) then merge_object js defs stack node else returns node

  abbrev pub or_none : Option (List String) → List String
  or_none none = []
  or_none (some vs) = vs

  -- `emitField`, once the parts that all fields share are known.
  unfoldable pub emit_found :
      (Json N → List (CatalogField N) → String → Option String → Outcome (List (CatalogField N)))
      → FieldParts
      → ℕ
      → Json N
      → List String
      → List (CatalogField N)
      → Outcome (List (CatalogField N))
  emit_found walk p depth node (v ∷ vs) fields =
      returns (push_field fields (select_of p (string_default (field "default" node)) (v ∷ vs)))
  emit_found walk p depth node [] fields = scalar_type node >>= λ t.
      merged_of node >>= λ merged. emit_typed walk p depth node t merged fields

  -- `emitField`, from where the node is normalized.
  unfoldable pub emit_node :
      (Json N → List (CatalogField N) → String → Option String → Outcome (List (CatalogField N)))
      → String
      → Bool
      → Option String
      → ℕ
      → Json N
      → List (CatalogField N)
      → Outcome (List (CatalogField N))
  emit_node walk key required group depth node fields = do
    meta ← prop "_metadata" node
    label ←
        humanize_value
          (or_value js (guarded js "docs::human_name" meta) (string (last_part (split "." key))))
    hint ← hint_of (or_value js (field "description" node) (field "title" node))
    placeholder ← example_string js node
    found ← extract_enum js node
    emit_found walk
        (record {
          key = key;
          label = label;
          required = required;
          group = group;
          hint = hint;
          placeholder = placeholder;
        })
        depth node (or_none found) fields

  -- `emitField`; `depth` is that of the node.
  unfoldable pub emit_at :
      (Json N → List (CatalogField N) → String → Option String → Outcome (List (CatalogField N)))
      → ℕ
      → String
      → Json N
      → Bool
      → Option String
      → List (CatalogField N)
      → Outcome (List (CatalogField N))
  emit_at walk depth key node required group fields =
      normalize js defs node >>= λ n. emit_node walk key required group depth n fields
