-- ===== src/ConfigForm/Blocked.antt =====
-- A required field that a chosen certificate provides keeps the form from being saved.
use vortex_flow.Common.{
  String, true, false, ◌&&◌, Option, none, some, List, [], ◌∷◌, Dict, ◌≡◌, refl, arith, In, at_head,
  later, not-In-nil, Bool-cases, inl, inr,
}
use vortex_flow.Types.{User, Fleet, Component}
use vortex_flow.Catalog.{
  CatalogComponent, CatalogField, Value, missing, null_value, text, flag, number, items, JsNumbers,
  value_at, is_blank,
}
use vortex_flow.Catalog.Preview.{ConfigKind}
use vortex_flow.CatalogGen.Nodes.{is_nil}
use vortex_flow.ConfigForm.State.{ConfigFormState, is_managed}
use vortex_flow.ConfigForm.Inputs.{missing_required, is_unset}
use vortex_flow.ConfigForm.Saving.{FormAct, save_to_fleet, press_save, on_form_acts, open_form}
use vortex_flow.ConfigForm.Managed.{is_clear, on_form_acts-is_clear, is_managed-is_blank}

module _ {N : Type 0} where
  is_blank-is_unset : (v : Value N) → is_blank v ≡ true → is_unset v ≡ true
  is_blank-is_unset missing h = refl
  is_blank-is_unset null_value h = refl
  is_blank-is_unset (text s) h = h
  is_blank-is_unset (flag b) h = cc
  is_blank-is_unset (number n) h = cc
  is_blank-is_unset (items xs) h = cc

  missing_required-In :
      (f : CatalogField N) (fields : List (CatalogField N)) (values : Dict (Value N))
      → In f fields
      → f.required ≡ true
      → is_unset (value_at values f.key) ≡ true
      → is_nil (missing_required fields values) ≡ false
  unfolding missing_required
  missing_required-In f [] values at required unset = not-In-nil at
  missing_required-In f (g ∷ fs) values (at_head e) required unset =
      let hit : (g.required && is_unset (value_at values g.key)) ≡ true = rw (← e) (ground arith) in
      rw hit refl
  missing_required-In f (g ∷ fs) values (later at) required unset =
      elim (Bool-cases (g.required && is_unset (value_at values g.key))) [
        | inl e ↦ rw e refl
        | inr e ↦ rw e (missing_required-In f fs values at required unset)
      ]

module _ {N : Type 0} (js : JsNumbers N) (json : String → String) (kind : ConfigKind)
    (component : CatalogComponent N) (existing : Option (Component (Value N))) where
  press_save-missing :
      (user : Option User) (fleet : Option Fleet) (s : ConfigFormState N)
      → is_nil (missing_required component.fields s.values) ≡ false
      → (press_save js json kind component existing user fleet s).1 ≡ none
  unfolding press_save save_to_fleet
  press_save-missing user none s h = ground arith
  press_save-missing user (some f) s h = ground arith

  -- Whatever the user does in a form that starts with no value for a field that a chosen certificate
  -- provides: while a chosen certificate provides a field that the component requires, a save sends
  -- nothing.
  pub press_save_blocked :
      (user : Option User) (fleet : Option Fleet) (acts : List (FormAct N)) (f : CatalogField N)
      → is_clear
          (open_form js json kind component existing).cert_refs
          (open_form js json kind component existing).values
        ≡ true
      → In f component.fields
      → f.required ≡ true
      → is_managed
          (on_form_acts js json kind component existing user fleet acts
            (open_form js json kind component existing)).cert_refs
          f.key
        ≡ true
      → (press_save js json kind component existing user fleet (
          on_form_acts js json kind component existing user fleet acts
            (open_form js json kind component existing))).1
        ≡ none
  press_save_blocked user fleet acts f clear at required managed =
      let s =
        on_form_acts js json kind component existing user fleet acts
          (open_form js json kind component existing) in
      let blank =
        is_managed-is_blank js json kind component existing s.cert_refs s.values f.key
          (on_form_acts-is_clear js json kind component existing user fleet acts _ clear) managed in
      press_save-missing user fleet s (
        missing_required-In f component.fields s.values at required
          (is_blank-is_unset (value_at s.values f.key) blank))
