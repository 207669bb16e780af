-- ===== src/Catalog/Saved.antt =====
-- What a form saves, and that the preview shows what is saved.
use vortex_flow.Common.{
  String, false, Option, none, some, List, [], ◌∷◌, ◌≡◌, refl, ap, sym, ◌∙◌, ◌==◌, Dict, get,
  get-insert, In, at_head, later, Bool-cases, ◌⊎◌, inl, inr, arith, eq_of_test,
}
use vortex_flow.Catalog.{
  Value, text, JsNumbers, CatalogField, CatalogComponent, kept_value, value_at, store, coerce_from,
  coerce_field_values,
}
use vortex_flow.Catalog.Preview.{mask, mask_kept, flat_from, flat_config}

module _ {N : Type 0} (js : JsNumbers N) where
  get-store-mask :
      (k key : String) (o : Option (Value N)) (out flat : Dict (Value N))
      → get k flat ≡ mask_kept k (get k out)
      → get k (store js key (mask_kept key o) flat) ≡ mask_kept k (get k (store js key o out))
  get-store-mask k key none out flat h = h
  get-store-mask k key (some v) out flat h =
      rw (get-insert key k (mask key v) flat, get-insert key k v out)
        (elim (Bool-cases (key == k)) [
          | inl e ↦ let same : key ≡ k = eq_of_test key k e in rw e (ap (λ j. some (mask j v)) same)
          | inr e ↦ rw e h
        ])

  get-flat_from :
      (k : String) (fs : List (CatalogField N)) (values out flat : Dict (Value N))
      → get k flat ≡ mask_kept k (get k out)
      → get k (flat_from js fs values flat) ≡ mask_kept k (get k (coerce_from js fs values out))
  unfolding flat_from coerce_from
  get-flat_from k [] values out flat h = h
  get-flat_from k (f ∷ fs) values out flat h =
      get-flat_from k fs values _ _
        (get-store-mask k f.key (kept_value js f (value_at values f.key)) out flat h)

  -- Under every key but `type`, the preview holds what is saved, masked where the key is secret, and
  -- nothing where nothing is saved.
  pub flat_config_saved :
      (component : CatalogComponent N) (values : Dict (Value N)) (k : String)
      → ("type" == k) ≡ false
      → get k (flat_config js component values)
        ≡ mask_kept k (get k (coerce_field_values js component values))
  unfolding flat_config coerce_field_values get
  flat_config_saved component values k h =
      get-flat_from k component.fields values [] (("type", text component.component_type) ∷ [])
        (rw h refl)

  -- The field that a saved value comes from.
  pub record IsSaved (fields : List (CatalogField N)) (values : Dict (Value N)) (k : String)
      (v : Value N) : Type 0 where
    pub field : CatalogField N
    pub listed : In field fields
    pub named : field.key ≡ k
    pub kept : kept_value js field (value_at values field.key) ≡ some v

  IsSaved-later :
      (f : CatalogField N) (fs : List (CatalogField N)) (values : Dict (Value N)) (k : String)
      (v : Value N)
      → IsSaved fs values k v
      → IsSaved (f ∷ fs) values k v
  IsSaved-later f fs values k v s = record {
    field = s.field;
    listed = later s.listed;
    named = s.named;
    kept = s.kept;
  }

  get-store :
      (k key : String) (o : Option (Value N)) (out : Dict (Value N)) (v : Value N)
      → get k (store js key o out) ≡ some v
      → (get k out ≡ some v) ⊎ ((key ≡ k) × (o ≡ some v))
  get-store k key none out v h = inl h
  get-store k key (some w) out v h = elim (Bool-cases (key == k)) [
    | inl e ↦
        let same : some w ≡ some v = sym (get-insert key k w out ∙ rw e refl) ∙ h in
        inr (eq_of_test key k e, same)
    | inr e ↦ inl (sym (get-insert key k w out ∙ rw e refl) ∙ h)
  ]

  get-coerce_from :
      (k : String) (v : Value N) (fs : List (CatalogField N)) (values out : Dict (Value N))
      → get k (coerce_from js fs values out) ≡ some v
      → (get k out ≡ some v) ⊎ IsSaved fs values k v
  unfolding coerce_from
  get-coerce_from k v [] values out h = inl h
  get-coerce_from k v (f ∷ fs) values out h =
      elim (get-coerce_from k v fs values
        (store js f.key (kept_value js f (value_at values f.key)) out) h) [
          | inr s ↦ inr (IsSaved-later f fs values k v s)
          | inl g ↦ elim (get-store k f.key _ out v g) [
            | inl there ↦ inl there
            | inr (named, kept) ↦
                inr (record { field = f; listed = at_head refl; named = named; kept = kept })
          ]
        ]

  -- Each value that a form saves stands under the key of a field of the component, and is what that
  -- field keeps of the value in the form.
  pub coerce_field_values-IsSaved :
      (component : CatalogComponent N) (values : Dict (Value N)) (k : String) (v : Value N)
      → get k (coerce_field_values js component values) ≡ some v
      → IsSaved component.fields values k v
  unfolding coerce_field_values get
  coerce_field_values-IsSaved component values k v h =
      elim (get-coerce_from k v component.fields values [] h) [
        | inl none_there ↦ ground arith
        | inr s ↦ s
      ]
