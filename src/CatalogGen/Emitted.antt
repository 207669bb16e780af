-- ===== src/CatalogGen/Emitted.antt =====
-- The fields that `walkProperties` and `emitField` make of a node are a form, where `mergeObject` does
-- not overflow the stack.
use vortex_flow.Common.{
  ℕ, zero, suc, ◌-◌, ◌+◌, String, Bool, true, false, ◌==◌, Option, none, some, List, [], ◌∷◌, ◌≡◌,
  refl, arith, if◌then◌else◌, Dict, All,
}
use vortex_flow.Catalog.{
  CatalogField, missing, FieldType, string_field, number_field, boolean_field, array_field,
  select_field, textarea_field,
}
use vortex_flow.CatalogGen.Outcome.{Outcome}
use vortex_flow.CatalogGen.Json.{Json, NumberTests, field, is_string, truthy}
use vortex_flow.CatalogGen.Nodes.{scalar_type}
use vortex_flow.CatalogGen.Merging.{merge_object}
use vortex_flow.CatalogGen.Fields.{push_field, FieldParts, plain_of, scalar_field, max_depth}
use vortex_flow.CatalogGen.Emit.{
  emit_scalar, emit_typed, emit_found, emit_node, emit_at, array_items, merged_of, has_props,
  is_map, is_deeper,
}
use vortex_flow.CatalogGen.Walk.{walk_entries, walk_with, emit_field, dotted, is_skipped}
use vortex_flow.CatalogGen.Ensures.{
  Ensures, returned, Any, ensures_rules, Ensures-if, Ensures-if_eq, Ensures-bind, Ensures-bind-Any,
}
use vortex_flow.CatalogGen.Calm.{
  array_items-Calm, scalar_type-Calm, prop-Calm, humanize_value-Calm, hint_of-Calm,
  example_string-Calm, extract_enum-Calm, required_of-Calm,
}
use vortex_flow.CatalogGen.Reached.{
  Reached, a_field, as_merged, Ensures-returns_eq, entries-Reached, deref-Reached,
  normalize-Reached,
}
use vortex_flow.CatalogGen.Forms.{
  IsForm, push_field-IsForm, plain_of-fits, select_of-fits, is_plain, scalar_field-is_plain,
  dotted-ne-type,
}

-- A rule that puts fields before and after.
abbrev pub Keeps :
    {N : Type 0} → Type 0 → (List (CatalogField N) → Outcome (List (CatalogField N))) → Type 0
Keeps Q run = (fields : List _) → IsForm fields → Ensures IsForm Q (run fields)

module _ {N : Type 0} (js : NumberTests N) (defs : Json N) (stack : ℕ) {Q : Type 0}
    (merge_rule : (node : Json N)
      → Reached js defs stack node
      → Ensures Any Q (merge_object js defs stack node)) where
  pub merge_object-Reached :
      (node : Json N)
      → Reached js defs stack node
      → Ensures (Reached js defs stack) Q (merge_object js defs stack node)
  merge_object-Reached node r =
      Ensures-returns_eq (merge_object js defs stack node) (merge_rule node r)
        (λ m e. as_merged r e)

  merged_of-Reached :
      (node : Json N)
      → Reached js defs stack node
      → Ensures (Reached js defs stack) Q (merged_of js defs stack node)
  merged_of-Reached node r =
      Ensures-if (truthy js (field "allOf" node)) _ _ (merge_object-Reached node r) (returned r)

  emit_scalar-Keeps :
      (p : FieldParts) (node : Json N) (t : Option FieldType)
      → (p.key == "type") ≡ false
      → is_plain t ≡ true
      → Keeps Q (emit_scalar js defs stack p node t)
  unfolding emit_scalar
  emit_scalar-Keeps p node none free plain fields h = returned h
  emit_scalar-Keeps p node (some string_field) free plain fields h =
      returned (
        push_field-IsForm fields _ h (plain_of-fits p string_field (field "default" node) refl)
          free)
  emit_scalar-Keeps p node (some number_field) free plain fields h =
      returned (
        push_field-IsForm fields _ h (plain_of-fits p number_field (field "default" node) refl)
          free)
  emit_scalar-Keeps p node (some boolean_field) free plain fields h = returned (
      push_field-IsForm fields _ h (plain_of-fits p boolean_field (field "default" node) refl) free)
  emit_scalar-Keeps p node (some textarea_field) free plain fields h = returned (
      push_field-IsForm fields _ h (plain_of-fits p textarea_field (field "default" node) refl)
        free)
  emit_scalar-Keeps p node (some select_field) free plain fields h = cc
  emit_scalar-Keeps p node (some array_field) free plain fields h =
      Ensures-bind-Any (array_items js defs stack node) _ (array_items-Calm js defs stack node)
        (λ it.
          returned
            (elim (is_string "object" it)
              as (λ b.
                IsForm (if b then fields else push_field fields (plain_of p array_field missing))) [
                  | true ↦ h
                  | false ↦ push_field-IsForm fields (plain_of p array_field missing) h refl free
                ]))

  emit_typed-Keeps :
      (walk : Json N
        → List (CatalogField N)
        → String
        → Option String
        → Outcome (List (CatalogField N)))
      → ((node : Json N) (prefix : String) (g : Option String)
          → Reached js defs stack node
          → Keeps Q (λ fs. walk node fs prefix g))
      → (p : FieldParts) (depth : ℕ) (node t merged : Json N) → (p.key == "type") ≡ false
      → Reached js defs stack merged
      → Keeps Q (emit_typed js defs stack walk p depth node t merged)
  unfolding emit_typed
  emit_typed-Keeps walk rule p depth node t merged free r fields h =
      Ensures-if _ _ _
        (Ensures-if (is_map js defs stack node merged) _ _
          (returned (push_field-IsForm fields (plain_of p textarea_field missing) h refl free))
          (Ensures-if (has_props js defs stack (field "properties" merged)) _ _
            (Ensures-if (is_deeper js defs stack p.group (depth + 1)) _ _ (returned h)
              (rule merged p.key p.group r fields h))
            (returned h)))
        (emit_scalar-Keeps p node (scalar_field t) free (scalar_field-is_plain t) fields h)

  emit_found-Keeps :
      (walk : Json N
        → List (CatalogField N)
        → String
        → Option String
        → Outcome (List (CatalogField N)))
      → ((node : Json N) (prefix : String) (g : Option String)
          → Reached js defs stack node
          → Keeps Q (λ fs. walk node fs prefix g))
      → (p : FieldParts) (depth : ℕ) (node : Json N) (values : List String)
      → (p.key == "type") ≡ false
      → Reached js defs stack node
      → Keeps Q (emit_found js defs stack walk p depth node values)
  unfolding emit_found
  emit_found-Keeps walk rule p depth node (v ∷ vs) free r fields h =
      returned (push_field-IsForm fields _ h (select_of-fits p (field "default" node) v vs) free)
  emit_found-Keeps walk rule p depth node [] free r fields h =
      Ensures-bind-Any (scalar_type node) _ (scalar_type-Calm js node) (λ t.
        Ensures-bind (merged_of js defs stack node) _ (merged_of-Reached node r)
          (λ merged s. emit_typed-Keeps walk rule p depth node t merged free s fields h))

  emit_at-Keeps :
      (walk : Json N
        → List (CatalogField N)
        → String
        → Option String
        → Outcome (List (CatalogField N)))
      → ((node : Json N) (prefix : String) (g : Option String)
          → Reached js defs stack node
          → Keeps Q (λ fs. walk node fs prefix g))
      → (depth : ℕ) (key : String) (node : Json N) (required : Bool) (group : Option String)
      → (key == "type") ≡ false
      → Reached js defs stack node
      → Keeps Q (emit_at js defs stack walk depth key node required group)
  unfolding emit_at emit_node
  emit_at-Keeps walk rule depth key node required group free r fields h =
      Ensures-bind _ _ (normalize-Reached js defs stack node r) (λ n s.
        search
          (
            ensures_rules,
            prop-Calm,
            humanize_value-Calm,
            hint_of-Calm,
            example_string-Calm,
            extract_enum-Calm,
            emit_found-Keeps walk rule,
          )
          depth 9)

  walk_entries-Keeps :
      (emit : String
        → Json N
        → Bool
        → Option String
        → List (CatalogField N)
        → Outcome (List (CatalogField N)))
      → ((key : String) (node : Json N) (r : Bool) (g : Option String)
          → (key == "type") ≡ false
          → Reached js defs stack node
          → Keeps Q (emit key node r g))
      → (prefix : String) (group : Option String) (required : List (Json N)) (d : Dict (Json N))
      → All (λ e. Reached js defs stack e.1) d
      → Keeps Q (walk_entries js defs stack emit prefix group required d)
  unfolding walk_entries
  walk_entries-Keeps emit rule prefix group required [] rs fields h = returned h
  walk_entries-Keeps emit rule prefix group required ((name, raw) ∷ d) rs fields h =
      let next = walk_entries-Keeps emit rule prefix group required d rs.1 in
      Ensures-if_eq (name == "type") _ _ (λ e. next fields h)
        (λ ne. Ensures-bind _ _ (deref-Reached js defs stack raw rs.0) (λ child s.
          Ensures-bind-Any _ _ (prop-Calm "_metadata" child) (λ meta.
            Ensures-if (is_skipped js defs stack child meta) _ _ (next fields h) (
              Ensures-bind _ _
                (rule (dotted js defs stack prefix name) child _ _ (dotted-free prefix name ne) s
                  fields h)
                next))))
    where
      dotted-free :
          (prefix name : String)
          → (name == "type") ≡ false
          → (dotted js defs stack prefix name == "type") ≡ false
      dotted-free prefix name h = ground (arith, h, dotted-ne-type prefix name)

  walk_with-Keeps :
      (emit : String
        → Json N
        → Bool
        → Option String
        → List (CatalogField N)
        → Outcome (List (CatalogField N)))
      → ((key : String) (node : Json N) (r : Bool) (g : Option String)
          → (key == "type") ≡ false
          → Reached js defs stack node
          → Keeps Q (emit key node r g))
      → (node : Json N) (prefix : String) (group : Option String) → Reached js defs stack node
      → Keeps Q (λ fs. walk_with js defs stack emit node fs prefix group)
  unfolding walk_with
  walk_with-Keeps emit rule node prefix group r fields h =
      Ensures-bind _ _ (merge_object-Reached node r) (λ merged s.
        Ensures-bind-Any _ _ (required_of-Calm js defs stack merged) (λ required.
          walk_entries-Keeps emit rule prefix group required _
            (entries-Reached js defs stack (a_field "properties" s)) fields h))

  pub emit_field-Keeps :
      (left : ℕ) (key : String) (node : Json N) (required : Bool) (group : Option String)
      → (key == "type") ≡ false
      → Reached js defs stack node
      → Keeps Q (emit_field js defs stack left key node required group)
  unfolding emit_field
  emit_field-Keeps zero key node required group free r =
      emit_at-Keeps _ (λ n prefix g s fs h. returned h) max_depth key node required group free r
  emit_field-Keeps (suc left) key node required group free r =
      emit_at-Keeps _ (walk_with-Keeps (emit_field js defs stack left) (emit_field-Keeps left))
        (max_depth - suc left) key node required group free r
