-- ===== src/CatalogGen/Forms.antt =====
-- The fields that are made of a schema: no key twice, none of them `type`, and each with a default and
-- options that fit its type.
use vortex_flow.Common.{
  String, Bool, true, false, not, ◌&&◌, ◌==◌, Option, none, some, List, [], ◌∷◌, map, map-append,
  any, has, All, All-append, Distinct, Distinct-snoc, ◌≡◌, refl, ap, sym, ◌∙◌, subst, arith,
  Bool-cases, inl, inr, ◌+s◌, includes, has-append, test_of_ne, nil-append, cons-append,
  char-append,
}
use vortex_flow.Catalog.{
  CatalogField, Value, missing, null_value, text, flag, number, items, FieldType, string_field,
  number_field, boolean_field, array_field, select_field, textarea_field,
}
use vortex_flow.CatalogGen.Json.{Json, undefined, null, boolean, num, string, array, object}
use vortex_flow.CatalogGen.Nodes.{is_nil}
use vortex_flow.CatalogGen.Fields.{
  push_field, string_default, number_default, boolean_default, typed_default, FieldParts, select_of,
  plain_of, scalar_field,
}

-- The types that `scalar_field` gives.
abbrev pub is_plain : Option FieldType → Bool
is_plain none = true
is_plain (some string_field) = true
is_plain (some number_field) = true
is_plain (some boolean_field) = true
is_plain (some array_field) = true
is_plain (some select_field) = false
is_plain (some textarea_field) = true

module _ {N : Type 0} where
  abbrev is_missing : Value N → Bool
  is_missing missing = true
  is_missing null_value = false
  is_missing (text s) = false
  is_missing (flag b) = false
  is_missing (number n) = false
  is_missing (items xs) = false

  abbrev is_text_or_missing : Value N → Bool
  is_text_or_missing missing = true
  is_text_or_missing null_value = false
  is_text_or_missing (text s) = true
  is_text_or_missing (flag b) = false
  is_text_or_missing (number n) = false
  is_text_or_missing (items xs) = false

  abbrev is_number_or_missing : Value N → Bool
  is_number_or_missing missing = true
  is_number_or_missing null_value = false
  is_number_or_missing (text s) = false
  is_number_or_missing (flag b) = false
  is_number_or_missing (number n) = true
  is_number_or_missing (items xs) = false

  abbrev is_flag_or_missing : Value N → Bool
  is_flag_or_missing missing = true
  is_flag_or_missing null_value = false
  is_flag_or_missing (text s) = false
  is_flag_or_missing (flag b) = true
  is_flag_or_missing (number n) = false
  is_flag_or_missing (items xs) = false

  abbrev pub fits : FieldType → Value N → List (String × String) → Bool
  fits string_field d options = is_text_or_missing d && is_nil options
  fits number_field d options = is_number_or_missing d && is_nil options
  fits boolean_field d options = is_flag_or_missing d && is_nil options
  fits array_field d options = is_missing d && is_nil options
  fits select_field d options = is_text_or_missing d && not (is_nil options)
  fits textarea_field d options = is_missing d && is_nil options

  -- A select has options and nothing else has; a default is of the field's type.
  abbrev pub is_fitting : CatalogField N → Bool
  is_fitting f = fits f.field_type f.default f.options

  abbrev pub keys_of : List (CatalogField N) → List String
  keys_of fs = map (λ f. f.key) fs

  pub record IsForm (fs : List (CatalogField N)) : Type 0 where
    pub distinct : Distinct (keys_of fs)
    pub fitting : All (λ f. is_fitting f ≡ true) fs
    pub free : has (keys_of fs) "type" ≡ false

  pub nil-IsForm : IsForm []
  nil-IsForm = record { distinct = tt; fitting = tt; free = refl }

  any-keys :
      (fs : List (CatalogField N)) (k : String) → any (λ x. x.key == k) fs ≡ has (keys_of fs) k
  any-keys [] k = refl
  any-keys (f ∷ fs) k = ground (arith, any-keys fs k)

  pub push_field-IsForm :
      (fs : List (CatalogField N)) (f : CatalogField N)
      → IsForm fs
      → is_fitting f ≡ true
      → (f.key == "type") ≡ false
      → IsForm (push_field fs f)
  unfolding push_field
  push_field-IsForm fs f h fit free = elim (Bool-cases (any (λ x. x.key == f.key) fs)) [
    | inl e ↦ rw e h
    | inr e ↦ rw e (record {
      distinct =
          subst Distinct (sym (map-append (λ x. x.key) fs (f ∷ [])))
            (Distinct-snoc (keys_of fs) f.key h.distinct (sym (any-keys fs f.key) ∙ e));
      fitting = All-append (λ x. is_fitting x ≡ true) fs (f ∷ []) h.fitting (fit, tt);
      free =
          ap (λ ks. has ks "type") (map-append (λ x. x.key) fs (f ∷ []))
          ∙ ground (arith, has-append (keys_of fs) (f.key ∷ []) "type", h.free, free);
    })
  ]

  string_default-fits : (d : Json N) → is_text_or_missing (string_default d) ≡ true
  string_default-fits undefined = refl
  string_default-fits null = refl
  string_default-fits (boolean b) = refl
  string_default-fits (num n) = refl
  string_default-fits (string s) = refl
  string_default-fits (array vs) = refl
  string_default-fits (object es) = refl

  number_default-fits : (d : Json N) → is_number_or_missing (number_default d) ≡ true
  number_default-fits undefined = refl
  number_default-fits null = refl
  number_default-fits (boolean b) = refl
  number_default-fits (num n) = refl
  number_default-fits (string s) = refl
  number_default-fits (array vs) = refl
  number_default-fits (object es) = refl

  boolean_default-fits : (d : Json N) → is_flag_or_missing (boolean_default d) ≡ true
  boolean_default-fits undefined = refl
  boolean_default-fits null = refl
  boolean_default-fits (boolean b) = refl
  boolean_default-fits (num n) = refl
  boolean_default-fits (string s) = refl
  boolean_default-fits (array vs) = refl
  boolean_default-fits (object es) = refl

  pub select_of-fits :
      (p : FieldParts) (d : Json N) (v : String) (vs : List String)
      → is_fitting (select_of p (string_default d) (v ∷ vs)) ≡ true
  select_of-fits p d v vs = ground (arith, string_default-fits d)

  pub scalar_field-is_plain : (t : Json N) → is_plain (scalar_field t) ≡ true
  scalar_field-is_plain t = ground arith

  pub plain_of-fits :
      (p : FieldParts) (t : FieldType) (d : Json N)
      → is_plain (some t) ≡ true
      → is_fitting (plain_of p t (typed_default t d)) ≡ true
  plain_of-fits p string_field d h = ground (arith, string_default-fits d)
  plain_of-fits p number_field d h = ground (arith, number_default-fits d)
  plain_of-fits p boolean_field d h = ground (arith, boolean_default-fits d)
  plain_of-fits p array_field d h = refl
  plain_of-fits p select_field d h = cc
  plain_of-fits p textarea_field d h = refl

includes-append : (p t : String) → includes "." t ≡ true → includes "." (p +s t) ≡ true
unfolding includes
includes-append String.[] t h = rw (nil-append t) h
includes-append (String.◌∷◌ c p) t h = rw (cons-append c p t) (ground (arith, includes-append p t))

-- A key with a dot is not `type`.
pub dotted-ne-type : (prefix name : String) → (prefix +s ("." +s name) == "type") ≡ false
unfolding includes
dotted-ne-type prefix name =
    let dot : includes "." ("." +s name) ≡ true = rw (char-append "." name) refl in
    test_of_ne (prefix +s ("." +s name)) "type" (λ e.
      let clash : false ≡ true =
        sym (ap (includes ".") e) ∙ includes-append prefix ("." +s name) dot in
      cc)
