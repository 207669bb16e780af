-- ===== src/Catalog/Masked.antt =====
-- The preview does not depend on the values of secret fields.
use vortex_flow.Common.{
  String, Bool, true, false, Option, none, some, List, [], ◌∷◌, ◌≡◌, refl, ap, Dict, In, at_head,
  later, Bool-cases, inl, inr, arith,
}
use vortex_flow.Catalog.{
  Value, JsNumbers, CatalogField, CatalogComponent, is_secret_key, kept_value, value_at,
}
use vortex_flow.Catalog.Preview.{ConfigKind, mask_kept, flat_from, flat_config, generate_yaml}

abbrev pub is_some {ℓ} : {A : Type ℓ} → Option A → Bool
is_some none = false
is_some (some a) = true

module _ {N : Type 0} (js : JsNumbers N) where
  -- Two forms that hold the same values but in secret fields, where both hold a value to be kept or
  -- neither does.
  pub record AgreesOn (v w : Dict (Value N)) (f : CatalogField N) : Type 0 where
    pub open_value : is_secret_key f.key ≡ false → value_at v f.key ≡ value_at w f.key
    pub secret_value :
        is_secret_key f.key ≡ true
        → is_some (kept_value js f (value_at v f.key))
          ≡ is_some (kept_value js f (value_at w f.key))

  mask_kept-secret :
      (key : String) (a b : Option (Value N))
      → is_secret_key key ≡ true
      → is_some a ≡ is_some b
      → mask_kept key a ≡ mask_kept key b
  mask_kept-secret key none none s h = refl
  mask_kept-secret key none (some b) s h = ground arith
  mask_kept-secret key (some a) none s h = ground arith
  mask_kept-secret key (some a) (some b) s h = rw s refl

  mask_kept-agrees :
      (v w : Dict (Value N)) (f : CatalogField N)
      → AgreesOn v w f
      → mask_kept f.key (kept_value js f (value_at v f.key))
        ≡ mask_kept f.key (kept_value js f (value_at w f.key))
  mask_kept-agrees v w f a = elim (Bool-cases (is_secret_key f.key)) [
    | inl s ↦ mask_kept-secret f.key _ _ s (a.secret_value s)
    | inr s ↦ ap (λ x. mask_kept f.key (kept_value js f x)) (a.open_value s)
  ]

  flat_from-agrees :
      (fs : List (CatalogField N)) (v w flat : Dict (Value N))
      → ((f : CatalogField N) → In f fs → AgreesOn v w f)
      → flat_from js fs v flat ≡ flat_from js fs w flat
  unfolding flat_from
  flat_from-agrees [] v w flat h = refl
  flat_from-agrees (f ∷ fs) v w flat h =
      rw (mask_kept-agrees v w f (h f (at_head refl)))
        (flat_from-agrees fs v w _ (λ g at. h g (later at)))

  -- Two forms that differ only in the values that their secret fields hold, and where in each of these
  -- fields both forms hold a value that the config keeps or neither does, have the same YAML preview:
  -- what is copied tells nothing of a secret but that it is kept.
  pub generate_yaml_hides :
      (json : String → String) (kind : ConfigKind) (component : CatalogComponent N)
      (v w : Dict (Value N)) (name : String)
      → ((f : CatalogField N) → In f component.fields → AgreesOn v w f)
      → generate_yaml js json kind component v name ≡ generate_yaml js json kind component w name
  unfolding generate_yaml flat_config
  generate_yaml_hides json kind component v w name h =
      rw (flat_from-agrees component.fields v w _ h) refl
