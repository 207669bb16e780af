-- ===== src/CatalogGen/Made.antt =====
-- A component that `buildComponent` makes has the type that it was asked for, and a form.
use vortex_flow.Common.{
  ℕ, String, Bool, true, false, ◌==◌, ◌||◌, ◌&&◌, List, [], ◌∷◌, ◌≡◌, refl, arith, Dict, ◌⊎◌, inl,
  inr, All,
}
use vortex_flow.Catalog.{CatalogField, CatalogComponent}
use vortex_flow.CatalogGen.Json.{Json, NumberTests}
use vortex_flow.CatalogGen.Nodes.{unwrap_option}
use vortex_flow.CatalogGen.Merging.{merge_object}
use vortex_flow.CatalogGen.Fields.{max_depth}
use vortex_flow.CatalogGen.Walk.{is_skipped}
use vortex_flow.CatalogGen.Unions.{
  Found, visit, collect_discriminator, push_choices, encoding_field, auth_field, collapse_encoding,
  collapse_auth,
}
use vortex_flow.CatalogGen.Build.{build_entries, build_component}
use vortex_flow.CatalogGen.Ensures.{
  Ensures, returned, Any, ensures_rules, Ensures-if, Ensures-if_eq, Ensures-bind, Ensures-bind-Any,
  Ensures-mono,
}
use vortex_flow.CatalogGen.Calm.{prop-Calm, hint_of-Calm, required_of-Calm}
use vortex_flow.CatalogGen.Nested.{PartChain, BranchChain, merge_object-Nested, visit-Nested}
use vortex_flow.CatalogGen.Reached.{
  Reached, a_field, a_reference, as_unwrapped, deref-Reached, guarded-Reached, entries-Reached,
}
use vortex_flow.CatalogGen.Forms.{is_fitting, IsForm, nil-IsForm, push_field-IsForm}
use vortex_flow.CatalogGen.Emitted.{merge_object-Reached, emit_field-Keeps, Keeps}

module _ {N : Type 0} (js : NumberTests N) (defs : Json N) (stack : ℕ) where
  -- A chain as long as the stack is deep, from a value that the code reaches from the definitions.
  abbrev pub IsTooDeep : Type 0
  IsTooDeep =
      ((node : Json N) × Reached js defs stack node × PartChain js defs stack node)
      ⊎ ((raw : Json N) × Reached js defs stack raw × BranchChain js defs stack raw)

  merge_object-Deep :
      (node : Json N)
      → Reached js defs stack node
      → Ensures Any IsTooDeep (merge_object js defs stack node)
  merge_object-Deep node r =
      Ensures-mono (λ a u. tt) (λ c. inl (node, r, c)) (merge_object-Nested js defs stack node)

  merge_object-Made :
      (node : Json N)
      → Reached js defs stack node
      → Ensures (Reached js defs stack) IsTooDeep (merge_object js defs stack node)
  merge_object-Made = merge_object-Reached js defs stack merge_object-Deep

  visit-Deep :
      (prop_name : String) (raw : Json N) (f : Found)
      → Reached js defs stack raw
      → Ensures Any IsTooDeep (visit js defs prop_name stack raw f)
  visit-Deep prop_name raw f r =
      Ensures-mono (λ a u. tt) (λ c. inr (raw, r, c)) (visit-Nested js defs prop_name stack raw f)

  collect_discriminator-Deep :
      (prop_name : String) (node : Json N)
      → Reached js defs stack node
      → Ensures Any IsTooDeep (collect_discriminator js defs stack prop_name node)
  unfolding collect_discriminator
  collect_discriminator-Deep prop_name node r = search (ensures_rules, visit-Deep)

  push_choices-IsForm :
      (make : List String → CatalogField N) (found : List String) (fields : List (CatalogField N))
      → ((v : String) (vs : List String) → is_fitting (make (v ∷ vs)) ≡ true)
      → ((v : String) (vs : List String) → ((make (v ∷ vs)).key == "type") ≡ false)
      → IsForm fields
      → IsForm (push_choices js defs make found fields).0
  unfolding push_choices
  push_choices-IsForm make [] fields fit free h = h
  push_choices-IsForm make (v ∷ vs) fields fit free h =
      push_field-IsForm fields (make (v ∷ vs)) h (fit v vs) (free v vs)

  collapse_encoding-IsForm :
      (node : Json N) (fields : List (CatalogField N))
      → Reached js defs stack node
      → IsForm fields
      → Ensures (λ r. IsForm r.0) IsTooDeep (collapse_encoding js defs stack node fields)
  unfolding collapse_encoding
  collapse_encoding-IsForm node fields r h = Ensures-bind _ _ (merge_object-Made node r) (λ n rn.
      Ensures-if _ _ _
        (Ensures-bind _ _
          (deref-Reached js defs stack _
            (guarded-Reached js defs stack "encoding" (a_field "properties" rn)))
          (λ d rd. Ensures-bind-Any _ _ (collect_discriminator-Deep "codec" d rd) (λ found.
            returned (
              push_choices-IsForm (encoding_field js defs) found fields (λ v vs. refl)
                (λ v vs. refl) h))))
        (returned h))

  collapse_auth-IsForm :
      (node : Json N) (fields : List (CatalogField N))
      → Reached js defs stack node
      → IsForm fields
      → Ensures (λ r. IsForm r.0) IsTooDeep (collapse_auth js defs stack node fields)
  unfolding collapse_auth
  collapse_auth-IsForm node fields r h = Ensures-bind _ _ (merge_object-Made node r) (λ n rn.
      Ensures-if _ _ _
        (Ensures-bind _ _
          (deref-Reached js defs stack _
            (guarded-Reached js defs stack "auth" (a_field "properties" rn)))
          (λ d rd.
            Ensures-bind-Any _ _
              (collect_discriminator-Deep "strategy" (unwrap_option js d) (as_unwrapped rd))
              (λ found. returned (
                push_choices-IsForm (auth_field js defs) found fields (λ v vs. refl) (λ v vs. refl)
                  h))))
        (returned h))

  build_entries-Keeps :
      (has_encoding has_auth : Bool) (required : List (Json N)) (d : Dict (Json N))
      → All (λ e. Reached js defs stack e.1) d
      → Keeps IsTooDeep (build_entries js defs stack has_encoding has_auth required d)
  unfolding build_entries
  build_entries-Keeps has_encoding has_auth required [] rs fields h = returned h
  build_entries-Keeps has_encoding has_auth required ((name, raw) ∷ d) rs fields h =
      let next = build_entries-Keeps has_encoding has_auth required d rs.1 in
      Ensures-if_eq
        (name == "type" || ((name == "encoding" && has_encoding) || (name == "auth" && has_auth))) _
        _ (λ e. next fields h)
        (λ ne. Ensures-bind _ _ (deref-Reached js defs stack raw rs.0) (λ child s.
          Ensures-bind-Any _ _ (prop-Calm "_metadata" child) (λ meta.
            Ensures-if (is_skipped js defs stack child meta) _ _ (next fields h) (
              Ensures-bind _ _
                (emit_field-Keeps js defs stack merge_object-Deep max_depth name child _ _
                  (not_type name _ ne) s fields h)
                next))))
    where
      not_type :
          (name : String) (b : Bool) → (name == "type" || b) ≡ false → (name == "type") ≡ false
      not_type name b h = ground arith

  -- A component of the type, with a form.
  pub record IsMade (type_name : String) (c : CatalogComponent N) : Type 0 where
    pub of_type : c.component_type ≡ type_name
    pub form : IsForm c.fields
    pub marked : c.generated ≡ true

  pub build_component-IsMade :
      (type_name : String) (config_ref description : Json N)
      → Reached js defs stack config_ref
      → Ensures
          (IsMade type_name)
          IsTooDeep
          (build_component js defs stack type_name config_ref description)
  unfolding build_component
  build_component-IsMade type_name config_ref description r =
      Ensures-bind _ _ (merge_object-Made _ (a_reference r)) (λ config rc.
        Ensures-bind _ _ (collapse_encoding-IsForm config [] rc nil-IsForm) (λ encoded h.
          Ensures-bind _ _ (collapse_auth-IsForm config encoded.0 rc h) (λ authed k.
            Ensures-bind-Any _ _ (required_of-Calm js defs stack config) (λ required.
              Ensures-bind _ _
                (build_entries-Keeps encoded.1 authed.1 required _
                  (entries-Reached js defs stack (a_field "properties" rc)) authed.0 k)
                (λ fields form.
                  Ensures-bind-Any _ _ (hint_of-Calm js defs stack description)
                    (λ hint. returned (record { of_type = refl; form = form; marked = refl })))))))
