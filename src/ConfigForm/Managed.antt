-- ===== src/ConfigForm/Managed.antt =====
-- While a certificate is chosen, the values that it provides stay empty, so that no save sends them.
use vortex_flow.Common.{
  String, Bool, true, false, not, ◌&&◌, ◌||◌, ◌==◌, Option, none, some, List, [], ◌∷◌, has, all,
  Dict, get, insert, get-insert, if◌then◌else◌, ◌≡◌, refl, arith, eq_iff, eq_comm, Bool-cases, ◌⊎◌,
  inl, inr, text_tests,
}
use vortex_flow.Types.{User, Fleet, Component}
use vortex_flow.Catalog.{
  CatalogComponent, CatalogField, Value, JsNumbers, value_at, is_blank, kept_value,
  coerce_field_values,
}
use vortex_flow.Catalog.Preview.{ConfigKind}
use vortex_flow.Catalog.Saved.{coerce_field_values-IsSaved}
use vortex_flow.ConfigForm.State.{
  CertRefs, ConfigFormState, is_chosen, is_managed, identity_fields, ca_fields, SaveRequest,
  config_of,
}
use vortex_flow.ConfigForm.Inputs.{pick_identity, pick_ca, edit_field, set_name}
use vortex_flow.ConfigForm.Saving.{
  FormAct, edits, renames, picks_identity, picks_ca, writes_raw, toggles_raw, saves, answers, fails,
  saved_timer, failed_timer, toggle_raw, save_to_fleet, press_save, on_form_act, on_form_acts,
  open_form, request_of,
}

module _ {N : Type 0} where
  value_at-insert :
      (k j : String) (v : Value N) (d : Dict (Value N))
      → value_at (insert k v d) j ≡ (if k == j then v else value_at d j)
  unfolding value_at
  value_at-insert k j v d = ground (arith, get-insert k j v d)

  abbrev pub is_empty_at : Dict (Value N) → List String → Bool
  is_empty_at values ks = all (λ k. is_blank (value_at values k)) ks

  -- The fields that a chosen certificate provides are empty.
  abbrev pub is_clear : CertRefs → Dict (Value N) → Bool
  is_clear refs values =
      (not (is_chosen refs.identity) || is_empty_at values identity_fields)
      && (not (is_chosen refs.ca) || is_empty_at values ca_fields)

  pick_identity-is_clear :
      (id : String) (s : ConfigFormState N)
      → is_clear s.cert_refs s.values ≡ true
      → is_clear (pick_identity id s).cert_refs (pick_identity id s).values ≡ true
  unfolding pick_identity
  pick_identity-is_clear id s h = grind (text_tests, value_at-insert)

  pick_ca-is_clear :
      (id : String) (s : ConfigFormState N)
      → is_clear s.cert_refs s.values ≡ true
      → is_clear (pick_ca id s).cert_refs (pick_ca id s).values ≡ true
  unfolding pick_ca
  pick_ca-is_clear id s h = grind (text_tests, value_at-insert)

  edit_field-is_clear :
      (f : CatalogField N) (v : String) (s : ConfigFormState N)
      → is_clear s.cert_refs s.values ≡ true
      → is_clear (edit_field f v s).cert_refs (edit_field f v s).values ≡ true
  unfolding edit_field is_managed
  edit_field-is_clear f v s h = grind (text_tests, value_at-insert, eq_comm)

module _ {N : Type 0} (js : JsNumbers N) (json : String → String) (kind : ConfigKind)
    (component : CatalogComponent N) (existing : Option (Component (Value N))) where
  toggle_raw-is_clear :
      (s : ConfigFormState N)
      → is_clear s.cert_refs s.values ≡ true
      → is_clear
          (toggle_raw js json kind component existing s).cert_refs
          (toggle_raw js json kind component existing s).values
        ≡ true
  unfolding toggle_raw
  toggle_raw-is_clear s h = ground arith

  press_save-kept :
      (user : Option User) (fleet : Option Fleet) (s : ConfigFormState N)
      → ((press_save js json kind component existing user fleet s).0.cert_refs ≡ s.cert_refs)
        × ((press_save js json kind component existing user fleet s).0.values ≡ s.values)
  unfolding press_save save_to_fleet
  press_save-kept user none s = ground arith
  press_save-kept user (some f) s = ground arith

  on_form_act-is_clear :
      (user : Option User) (fleet : Option Fleet) (a : FormAct N) (s : ConfigFormState N)
      → is_clear s.cert_refs s.values ≡ true
      → is_clear
          (on_form_act js json kind component existing user fleet a s).cert_refs
          (on_form_act js json kind component existing user fleet a s).values
        ≡ true
  unfolding on_form_act set_name
  on_form_act-is_clear user fleet (edits f v) s h = edit_field-is_clear f v s h
  on_form_act-is_clear user fleet (renames v) s h = h
  on_form_act-is_clear user fleet (picks_identity id) s h = pick_identity-is_clear id s h
  on_form_act-is_clear user fleet (picks_ca id) s h = pick_ca-is_clear id s h
  on_form_act-is_clear user fleet (writes_raw v) s h = h
  on_form_act-is_clear user fleet toggles_raw s h = toggle_raw-is_clear s h
  on_form_act-is_clear user fleet saves s h =
      let (refs, values) = press_save-kept user fleet s in rw (refs, values) h
  on_form_act-is_clear user fleet answers s h = h
  on_form_act-is_clear user fleet (fails detail) s h = h
  on_form_act-is_clear user fleet saved_timer s h = h
  on_form_act-is_clear user fleet failed_timer s h = h

  pub on_form_acts-is_clear :
      (user : Option User) (fleet : Option Fleet) (acts : List (FormAct N)) (s : ConfigFormState N)
      → is_clear s.cert_refs s.values ≡ true
      → is_clear
          (on_form_acts js json kind component existing user fleet acts s).cert_refs
          (on_form_acts js json kind component existing user fleet acts s).values
        ≡ true
  unfolding on_form_acts
  on_form_acts-is_clear user fleet [] s h = h
  on_form_acts-is_clear user fleet (a ∷ acts) s h =
      on_form_act-is_clear user fleet a _ (on_form_acts-is_clear user fleet acts s h)

  request_of-config :
      (o : Option (Component (Value N))) (fleet : Fleet) (s : ConfigFormState N)
      → config_of (request_of js json kind component existing o fleet s)
        ≡ coerce_field_values js component s.values
  request_of-config none fleet s = refl
  request_of-config (some c) fleet s = refl

  pub press_save-config :
      (user : Option User) (fleet : Option Fleet) (s : ConfigFormState N) (request : SaveRequest N)
      → (press_save js json kind component existing user fleet s).1 ≡ some request
      → config_of request ≡ coerce_field_values js component s.values
  unfolding press_save save_to_fleet
  press_save-config user none s request h = ground arith
  press_save-config user (some f) s request h =
      let same = request_of-config existing f s in ground arith

  no-value :
      (k : String) (values : Dict (Value N))
      → is_blank (value_at values k) ≡ true
      → (o : Option (Value N)) → get k (coerce_field_values js component values) ≡ o
      → o ≡ none
  unfolding kept_value
  no-value k values blank none e = refl
  no-value k values blank (some v) e =
      let s = coerce_field_values-IsSaved js component values k v e in
      let empty : is_blank (value_at values s.field.key) ≡ true = rw s.named blank in
      let clash : none ≡ some v = rw empty at s.kept in cc

  is_empty_at-has :
      (values : Dict (Value N)) (ks : List String) (k : String)
      → is_empty_at values ks ≡ true
      → has ks k ≡ true
      → is_blank (value_at values k) ≡ true
  is_empty_at-has values [] k h there = cc
  is_empty_at-has values (j ∷ ks) k h there = elim (Bool-cases (j == k)) [
    | inl e ↦ let same : j ≡ k = (eq_iff j k).0 e in rw (← same) (ground arith)
    | inr e ↦ is_empty_at-has values ks k (ground arith) (ground arith)
  ]

  -- The values of a managed field are empty.
  pub is_managed-is_blank :
      (refs : CertRefs) (values : Dict (Value N)) (k : String)
      → is_clear refs values ≡ true
      → is_managed refs k ≡ true
      → is_blank (value_at values k) ≡ true
  unfolding is_managed
  is_managed-is_blank refs values k h m =
      elim (by_parts (has identity_fields k) (is_chosen refs.identity)
        (is_empty_at values identity_fields) (has ca_fields k) (is_chosen refs.ca)
        (is_empty_at values ca_fields) h m) [
          | inl (there, empty) ↦ is_empty_at-has values identity_fields k empty there
          | inr (there, empty) ↦ is_empty_at-has values ca_fields k empty there
        ]
    where
      by_parts :
          (a b c d e f : Bool)
          → ((not b || c) && (not e || f)) ≡ true
          → ((a && b) || (d && e)) ≡ true
          → ((a ≡ true) × (c ≡ true)) ⊎ ((d ≡ true) × (f ≡ true))
      by_parts true true c d e f h m = inl (refl, ground arith)
      by_parts true false c d e f h m = inr (ground arith, ground arith)
      by_parts false b c d e f h m = inr (ground arith, ground arith)

  -- Whatever the user does in a form that starts with no value for a field that a chosen certificate
  -- provides: the config that a save sends has nothing under the keys that the certificates chosen then
  -- provide.
  pub press_save_without_paths :
      (user : Option User) (fleet : Option Fleet) (acts : List (FormAct N))
      (request : SaveRequest N) (k : String)
      → is_clear
          (open_form js json kind component existing).cert_refs
          (open_form js json kind component existing).values
        ≡ true
      → (press_save js json kind component existing user fleet (
          on_form_acts js json kind component existing user fleet acts
            (open_form js json kind component existing))).1
        ≡ some request
      → is_managed
          (on_form_acts js json kind component existing user fleet acts
            (open_form js json kind component existing)).cert_refs
          k
        ≡ true
      → get k (config_of request) ≡ none
  press_save_without_paths user fleet acts request k clear sent managed =
      let s =
        on_form_acts js json kind component existing user fleet acts
          (open_form js json kind component existing) in
      let blank =
        is_managed-is_blank s.cert_refs s.values k (on_form_acts-is_clear user fleet acts _ clear)
          managed in
      rw (press_save-config user fleet s request sent) (no-value k s.values blank _ refl)
