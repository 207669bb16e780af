-- ===== src/ConfigForm/Resaved.antt =====
-- What a save sends of a component that is opened and saved with no change.
use vortex_flow.Common.{
  String, false, ◌==◌, Option, none, some, List, [], ◌∷◌, map, has, Dict, get, get-insert, Distinct,
  ◌≡◌, refl, sym, ap, ◌∙◌, arith, eq_iff, eq_refl, In, at_head, later, not-In-nil, has-In, In-map,
}
use vortex_flow.Types.{User, Fleet, Component}
use vortex_flow.Catalog.{
  CatalogComponent, CatalogField, Value, FieldType, JsNumbers, value_at, is_blank, strictly_equal,
  is_empty_array, kept_value, store, coerce, coerce_from, coerce_field_values,
}
use vortex_flow.Catalog.Form.{
  Storable, a_text, a_choice, an_area, a_flag, a_number, a_list, values_from_config,
  values_from_config_restores,
}
use vortex_flow.Catalog.Preview.{ConfigKind}
use vortex_flow.ConfigForm.State.{SaveRequest, config_of}
use vortex_flow.ConfigForm.Saving.{press_save, open_form}
use vortex_flow.ConfigForm.Managed.{press_save-config}

module _ {N : Type 0} (js : JsNumbers N) where
  get-store_other :
      (k key : String) (o : Option (Value N)) (out : Dict (Value N))
      → (key == k) ≡ false
      → get k (store js key o out) ≡ get k out
  get-store_other k key none out ne = refl
  get-store_other k key (some v) out ne = get-insert key k v out ∙ rw ne refl

  get-store_at :
      (key : String) (o : Option (Value N)) (out : Dict (Value N))
      → get key out ≡ none
      → get key (store js key o out) ≡ o
  get-store_at key none out h = h
  get-store_at key (some v) out h = get-insert key key v out ∙ rw (eq_refl key) refl

  get-coerce_from_other :
      (k : String) (fs : List (CatalogField N)) (values out : Dict (Value N))
      → has (map (λ f. f.key) fs) k ≡ false
      → get k (coerce_from js fs values out) ≡ get k out
  unfolding coerce_from
  get-coerce_from_other k [] values out h = refl
  get-coerce_from_other k (f ∷ fs) values out h =
      get-coerce_from_other k fs values _ (ground arith)
      ∙ get-store_other k f.key (kept_value js f (value_at values f.key)) out (ground arith)

  -- Where keys are distinct, what a form saves under the key of a field is what the field keeps.
  get-coerce_from_at :
      (f : CatalogField N) (fs : List (CatalogField N)) (values out : Dict (Value N))
      → Distinct (map (λ g. g.key) fs)
      → In f fs
      → get f.key out ≡ none
      → get f.key (coerce_from js fs values out) ≡ kept_value js f (value_at values f.key)
  unfolding coerce_from
  get-coerce_from_at f [] values out d at h = not-In-nil at
  get-coerce_from_at f (g ∷ fs) values out (fresh, d) (at_head e) h = rw e (
      get-coerce_from_other g.key fs values _ fresh
      ∙ get-store_at g.key (kept_value js g (value_at values g.key)) out
          (ap (λ x. get x out) (ap (λ x. x.key) (sym e)) ∙ h))
  get-coerce_from_at f (g ∷ fs) values out (fresh, d) (later at) h =
      let there = has-In (map (λ x. x.key) fs) (In-map (λ x. x.key) fs at) in
      let ne : (g.key == f.key) ≡ false =
        ground (arith, fresh, eq_iff g.key f.key, ap (λ k. has (map (λ x. x.key) fs) k), there) in
      get-coerce_from_at f fs values _ d at
        (get-store_other f.key g.key (kept_value js g (value_at values g.key)) out ne ∙ h)

  is_empty_array-Storable :
      (t : FieldType) (v : Value N) → Storable js t v → is_empty_array v ≡ false
  is_empty_array-Storable t v (a_text s) = refl
  is_empty_array-Storable t v (a_choice s) = refl
  is_empty_array-Storable t v (an_area s) = refl
  is_empty_array-Storable t v (a_flag b) = refl
  is_empty_array-Storable t v (a_number n back) = refl
  is_empty_array-Storable t v (a_list x xs lines) = refl

  kept_value-coerce :
      (f : CatalogField N) (w v : Value N)
      → coerce js f.field_type w ≡ v
      → is_blank w ≡ false
      → strictly_equal js v f.default ≡ false
      → is_empty_array v ≡ false
      → kept_value js f w ≡ some v
  unfolding kept_value
  kept_value-coerce f w v e full differs holds = rw (full, e, differs, holds) refl

module _ {N : Type 0} (js : JsNumbers N) (json : String → String) (kind : ConfigKind)
    (component : CatalogComponent N) (stored : Component (Value N)) where
  -- A stored component is opened in the form and saved with no change, and the save sends a request.
  -- Where the keys of its type are distinct, a stored value of its field's type that the form does not
  -- show as empty, and that is not the default, is sent as it is stored, provided that a number is given
  -- back by its text, and that a list has an item, each trimmed, not empty and without line break; and
  -- nothing is sent under a key that is no field's, whatever is stored there.
  pub press_save_unchanged :
      (user : Option User) (fleet : Option Fleet) (request : SaveRequest N) (f : CatalogField N)
      (k : String)
      → (press_save js json kind component
          (some stored)
          user
          fleet
          (open_form js json kind component (some stored))).1
        ≡ some request
      → Distinct (map (λ f. f.key) component.fields)
      → In f component.fields
      → Storable js f.field_type (value_at stored.config f.key)
      → is_blank (value_at (values_from_config js component stored.config) f.key) ≡ false
      → strictly_equal js (value_at stored.config f.key) f.default ≡ false
      → has (map (λ f. f.key) component.fields) k ≡ false
      → (get f.key (config_of request) ≡ some (value_at stored.config f.key))
        × (get k (config_of request) ≡ none)
  unfolding open_form coerce_field_values get
  press_save_unchanged user fleet request f k sent distinct at typed shown differs other =
      let values = values_from_config js component stored.config in
      let config =
        press_save-config js json kind component (some stored) user fleet _ request sent in
      let restored = values_from_config_restores js component stored.config f distinct at typed in
      (
        ap (get f.key) config
            ∙ get-coerce_from_at js f component.fields values [] distinct at refl
            ∙ kept_value-coerce js f (value_at values f.key) (value_at stored.config f.key) restored
                shown differs
                (is_empty_array-Storable js f.field_type (value_at stored.config f.key) typed),
        ap (get k) config ∙ get-coerce_from_other js k component.fields values [] other,
      )
