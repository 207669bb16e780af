-- ===== src/CatalogGen/Walk.antt =====
-- frontend/src/lib/catalogGen.ts: `walkProperties`, and `emitField` with it.
use vortex_flow.Common.{
  ℕ, zero, suc, ◌-◌, String, Bool, not, ◌==◌, ◌||◌, Option, none, some, List, [], ◌∷◌, Dict,
  if◌then◌else◌, any, ◌+s◌, get,
}
use vortex_flow.Catalog.{CatalogField}
use vortex_flow.CatalogGen.Outcome.{Outcome, returns, ◌>>=◌}
use vortex_flow.CatalogGen.Json.{
  Json, NumberTests, field, prop, entries, is_string, truthy, guarded,
}
use vortex_flow.CatalogGen.Merging.{deref, merge_object}
use vortex_flow.CatalogGen.Fields.{grouped_blocks, max_depth, iterated}
use vortex_flow.CatalogGen.Emit.{emit_at}

module _ {N : Type 0} (js : NumberTests N) (defs : Json N) (stack : ℕ) where
  abbrev pub dotted : String → String → String
  dotted prefix name = if prefix == "" then name else prefix +s ("." +s name)

  -- `opts.group || (prefix ? undefined : GROUPED_BLOCKS[name])`
  abbrev pub group_of : Option String → String → String → Option String
  group_of none prefix name = if prefix == "" then get name grouped_blocks else none
  group_of (some group) prefix name =
      if not (group == "")
      then some group
      else if prefix == ""
      then get name grouped_blocks
      else none

  abbrev pub is_skipped : Json N → Json N → Bool
  is_skipped child meta =
      truthy js (guarded js "docs::hidden" meta) || truthy js (field "deprecated" child)

  -- The loop of `walkProperties`; `emit` is `emitField` at the depth of the walk.
  unfoldable pub walk_entries :
      (String
        → Json N
        → Bool
        → Option String
        → List (CatalogField N)
        → Outcome (List (CatalogField N)))
      → String
      → Option String
      → List (Json N)
      → Dict (Json N)
      → List (CatalogField N)
      → Outcome (List (CatalogField N))
  walk_entries emit prefix group required [] fields = returns fields
  walk_entries emit prefix group required ((name, raw) ∷ rest) fields =
      let next = λ (fs : List (CatalogField N)). walk_entries emit prefix group required rest fs in
      if name == "type"
      then next fields
      else (deref js defs raw >>= λ child. prop "_metadata" child >>= λ meta.
          if is_skipped child meta
          then next fields
          else (emit (dotted prefix name) child (any (is_string name) required)
                (group_of group prefix name) fields
              >>= next))

  -- `new Set(node.required || [])`
  abbrev pub required_of : Json N → Outcome (List (Json N))
  required_of node =
      if truthy js (field "required" node) then iterated (field "required" node) else returns []

  unfoldable pub walk_with :
      (String
        → Json N
        → Bool
        → Option String
        → List (CatalogField N)
        → Outcome (List (CatalogField N)))
      → Json N
      → List (CatalogField N)
      → String
      → Option String
      → Outcome (List (CatalogField N))
  walk_with emit obj_node fields prefix group = do
    node ← merge_object js defs stack obj_node
    required ← required_of node
    walk_entries emit prefix group required (entries (field "properties" node)) fields

  -- `emitField`, where the node may lie `left` levels above the deepest one. The deepest one walks no
  -- further: the next depth is above every cap.
  unfoldable pub emit_field :
      ℕ
      → String
      → Json N
      → Bool
      → Option String
      → List (CatalogField N)
      → Outcome (List (CatalogField N))
  emit_field zero key node required group fields =
      emit_at js defs stack (λ n fs prefix g. returns fs) max_depth key node required group fields
  emit_field (suc left) key node required group fields =
      emit_at js defs stack (walk_with (emit_field left)) (max_depth - suc left) key node required
        group fields
