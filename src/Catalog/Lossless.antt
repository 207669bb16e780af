-- ===== src/Catalog/Lossless.antt =====
-- No value that a form saves is lost when the dotted keys of its preview are nested.
use vortex_flow.Common.{
  String, Bool, true, false, Option, none, some, List, [], ◌∷◌, map, ◌≡◌, refl, ap, sym, ◌∙◌, ◌&&◌,
  ◌==◌, Dict, get, insert, all, In, at_head, later, not-In-nil, split, Bool-cases, inl, inr, arith,
  eq_iff, eq_of_test, eq_refl, In-map,
}
use vortex_flow.Catalog.{
  Value, text, JsNumbers, CatalogField, CatalogComponent, kept_value, value_at, store,
  coerce_field_values,
}
use vortex_flow.Catalog.Yaml.{nest_dot_keys}
use vortex_flow.Catalog.Preview.{mask, mask_kept, flat_from, flat_config}
use vortex_flow.Catalog.Nested.{apart, all_apart, is_apart, find_path, find-nest_dot_keys}
use vortex_flow.Catalog.Saved.{flat_config_saved, coerce_field_values-IsSaved}

pub In-all :
    {A : Type 0} (p : A → Bool) (xs : List A) {x : A} → all p xs ≡ true → In x xs → p x ≡ true
In-all p [] h at = not-In-nil at
In-all p (y ∷ ys) h (at_head e) = rw e (ground arith)
In-all p (y ∷ ys) h (later at) = In-all p ys (ground arith) at

apart-itself : (ps : List String) → apart ps ps ≡ false
unfolding apart
apart-itself [] = refl
apart-itself (p ∷ ps) = rw (eq_refl p) (apart-itself ps)

apart_comm : (ps qs : List String) → apart ps qs ≡ true → apart qs ps ≡ true
unfolding apart
apart_comm [] qs h = ground arith
apart_comm (p ∷ ps) [] h = ground arith
apart_comm (p ∷ ps) (q ∷ qs) h = ground (arith, eq_iff p q, eq_iff q p, apart_comm ps qs)

-- Whether no key of the list is, part by part, the start of a later one or the other way round.
unfoldable pub apart_keys : List String → Bool
apart_keys [] = true
apart_keys (k ∷ ks) = all (λ j. apart (split "." k) (split "." j)) ks && apart_keys ks

module _ {N : Type 0} where
  all_apart-insert :
      (j key : String) (v : Value N) (flat : Dict (Value N))
      → all_apart j flat ≡ true
      → apart (split "." key) (split "." j) ≡ true
      → all_apart j (insert key v flat) ≡ true
  unfolding insert
  all_apart-insert j key v [] h a = rw a refl
  all_apart-insert j key v ((i, w) ∷ flat) h a = elim (Bool-cases (i == key)) [
    | inl e ↦ rw e h
    | inr e ↦ let ih = all_apart-insert j key v flat (ground arith) a in rw e (ground arith)
  ]

  is_apart-insert :
      (key : String) (v : Value N) (flat : Dict (Value N))
      → is_apart flat ≡ true
      → all_apart key flat ≡ true
      → is_apart (insert key v flat) ≡ true
  unfolding insert is_apart
  is_apart-insert key v [] h a = refl
  is_apart-insert key v ((j, w) ∷ flat) h a = elim (Bool-cases (j == key)) [
    | inl e ↦ rw e h
    | inr e ↦
        let ih = is_apart-insert key v flat (ground arith) (ground arith) in
        let back = apart_comm (split "." j) (split "." key) (ground arith) in
        let others = all_apart-insert j key v flat (ground arith) back in rw e (ground arith)
  ]

  abbrev field_keys : List (CatalogField N) → List String
  field_keys fs = map (λ f. f.key) fs

  abbrev pub declared_keys : CatalogComponent N → List String
  declared_keys c = "type" ∷ map (λ f. f.key) c.fields

  others-insert :
      (key : String) (v : Value N) (flat : Dict (Value N)) (ks : List String)
      → all (λ k. all_apart k flat) ks ≡ true
      → all (λ j. apart (split "." key) (split "." j)) ks ≡ true
      → all (λ k. all_apart k (insert key v flat)) ks ≡ true
  others-insert key v flat [] h a = refl
  others-insert key v flat (k ∷ ks) h a =
      let ih = others-insert key v flat ks (ground arith) (ground arith) in
      let here = all_apart-insert k key v flat (ground arith) (ground arith) in ground arith

  first_apart :
      (v : Value N) (ks : List String)
      → all (λ j. apart (split "." "type") (split "." j)) ks ≡ true
      → all (λ k. all_apart k (("type", v) ∷ [])) ks ≡ true
  first_apart v [] h = refl
  first_apart v (k ∷ ks) h = let ih = first_apart v ks (ground arith) in ground arith

module _ {N : Type 0} (js : JsNumbers N) where
  is_apart-flat_from :
      (fs : List (CatalogField N)) (values flat : Dict (Value N))
      → apart_keys (field_keys fs) ≡ true
      → is_apart flat ≡ true
      → all (λ k. all_apart k flat) (field_keys fs) ≡ true
      → is_apart (flat_from js fs values flat) ≡ true
  unfolding flat_from apart_keys
  is_apart-flat_from [] values flat ks h a = h
  is_apart-flat_from (f ∷ fs) values flat ks h a =
      of_kept (mask_kept f.key (kept_value js f (value_at values f.key)))
        (λ flat h a. is_apart-flat_from fs values flat (ground arith) h a)
    where
      of_kept :
          (o : Option (Value N))
          → ((flat : Dict (Value N))
              → is_apart flat ≡ true
              → all (λ k. all_apart k flat) (field_keys fs) ≡ true
              → is_apart (flat_from js fs values flat) ≡ true)
          → is_apart (flat_from js fs values (store js f.key o flat)) ≡ true
      of_kept none ih = ih flat h (ground arith)
      of_kept (some v) ih =
          ih (insert f.key v flat) (is_apart-insert f.key v flat h (ground arith))
            (others-insert f.key v flat (field_keys fs) (ground arith) (ground arith))

  is_apart-flat_config :
      (component : CatalogComponent N) (values : Dict (Value N))
      → apart_keys (declared_keys component) ≡ true
      → is_apart (flat_config js component values) ≡ true
  unfolding flat_config apart_keys is_apart
  is_apart-flat_config component values h =
      is_apart-flat_from component.fields values _ (ground arith) refl (
        first_apart {N = N} (text component.component_type) (field_keys component.fields)
          (ground arith))

  get-In : (k : String) (v : Value N) (d : Dict (Value N)) → get k d ≡ some v → In (k, v) d
  unfolding get
  get-In k v [] h = ground arith
  get-In k v ((j, w) ∷ d) h = elim (Bool-cases (j == k)) [
    | inl e ↦ let same : w ≡ v = ground arith in at_head (rw (eq_of_test j k e, same) refl)
    | inr e ↦ later (get-In k v d (ground arith))
  ]

  type_first :
      (component : CatalogComponent N)
      → apart_keys (declared_keys component) ≡ true
      → all (λ j. apart (split "." "type") (split "." j)) (map (λ f. f.key) component.fields) ≡ true
  unfolding apart_keys
  type_first component h = ground arith

  -- Where the keys that a component declares, with `type`, are apart, every value that a form saves
  -- stands, masked where its key is secret, in the nested config of the preview, at the end of the
  -- path that the parts of its key make.
  pub find-nest_dot_keys-flat_config :
      (component : CatalogComponent N) (values : Dict (Value N)) (k : String) (v : Value N)
      → apart_keys (declared_keys component) ≡ true
      → get k (coerce_field_values js component values) ≡ some v
      → find_path (split "." k) (nest_dot_keys (flat_config js component values)) ≡ some (mask k v)
  find-nest_dot_keys-flat_config component values k v h saved =
      find-nest_dot_keys k (mask k v) (flat_config js component values)
        (is_apart-flat_config component values h)
        (get-In k (mask k v) _
          (flat_config_saved js component values k not_type ∙ ap (mask_kept k) saved))
    where
      not_type : ("type" == k) ≡ false
      not_type =
          let s = coerce_field_values-IsSaved js component values k v saved in
          let far : apart (split "." "type") (split "." s.field.key) ≡ true =
            In-all (λ j. apart (split "." "type") (split "." j)) (map (λ f. f.key) component.fields)
              (type_first component h) (In-map (λ f. f.key) component.fields s.listed) in
          elim (Bool-cases ("type" == k)) [
            | inl e ↦
                let same : s.field.key ≡ "type" = s.named ∙ sym (eq_of_test "type" k e) in
                let near = apart-itself (split "." "type") in
                let clash : apart (split "." "type") (split "." "type") ≡ true = rw same at far in
                ground arith
            | inr e ↦ e
          ]
