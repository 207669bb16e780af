-- ===== src/Catalog/Form.antt =====
-- frontend/src/components/catalog/ComponentConfigForm.tsx: the state of a form that edits a stored
-- config, which reverses what `coerce_field_values` of the catalog does.
use vortex_flow.Common.{
  char-append, String, Bool, true, false, some, List, [], ◌∷◌, map, not, all, ◌≡◌, refl, ap, ◌∙◌,
  ◌==◌, ◌&&◌, Dict, get, insert, get-insert, has, Distinct, In, at_head, later, not-In-nil, split,
  join, includes, trim, filter, char_eq, ◌∷ᶜ◌, nil-append, cons-append, ◌+s◌, arith, eq_iff,
  eq_refl, eq_of_test,
}
use Prim.Native.Char.{Char}
use vortex_flow.Catalog.{
  Value, missing, null_value, text, flag, number, items, JsNumbers, CatalogField, CatalogComponent,
  FieldType, string_field, number_field, boolean_field, array_field, select_field, textarea_field,
  or_missing, coerce, value_at,
}
use vortex_flow.Catalog.Yaml.{show_bool}

-- A line as the form keeps it: not empty, trimmed and with no line break.
abbrev pub is_line : String → Bool
is_line s = not (s == "") && ((trim s == s) && not (includes "\n" s))

module _ {N : Type 0} (js : JsNumbers N) where
  -- `String(v)`
  abbrev pub show_value : Value N → String
  show_value missing = "undefined"
  show_value null_value = "null"
  show_value (text s) = s
  show_value (flag b) = show_bool b
  show_value (number n) = js.show_number n
  show_value (items xs) = join "," xs

  abbrev pub show_default : Value N → String
  show_default missing = ""
  show_default null_value = "null"
  show_default (text s) = s
  show_default (flag b) = show_bool b
  show_default (number n) = js.show_number n
  show_default (items xs) = join "," xs

  unfoldable pub form_value : Value N → Value N → String
  form_value default missing = show_default default
  form_value default null_value = show_default default
  form_value default (text s) = show_value (text s)
  form_value default (flag b) = show_bool b
  form_value default (number n) = show_value (number n)
  form_value default (items xs) = join "\n" xs

  unfoldable pub values_from :
      List (CatalogField N) → Dict (Value N) → Dict (Value N) → Dict (Value N)
  values_from [] config init = init
  values_from (f ∷ fs) config init =
      values_from fs config
        (insert f.key (text (form_value f.default (value_at config f.key))) init)

  unfoldable pub values_from_config : CatalogComponent N → Dict (Value N) → Dict (Value N)
  values_from_config component config = values_from component.fields config []

  -- A stored value that the type of the field has and that the form can write again: a number that its
  -- text gives back, and a list of at least one line, each trimmed and not empty.
  pub data Storable : FieldType → Value N → Type 0 where
    a_text : (s : String) → Storable string_field (text s)
    a_choice : (s : String) → Storable select_field (text s)
    an_area : (s : String) → Storable textarea_field (text s)
    a_flag : (b : Bool) → Storable boolean_field (flag b)
    a_number :
        (n : N) → js.to_number (text (js.show_number n)) ≡ n → Storable number_field (number n)
    a_list :
        (x : String) (xs : List String)
        → all is_line (x ∷ xs) ≡ true
        → Storable array_field (items (x ∷ xs))

pub split-plain : (d : Char) (s : String) → includes d s ≡ false → split d s ≡ s ∷ []
unfolding split includes
split-plain d String.[] h = refl
split-plain d (String.◌∷◌ c s) h =
    let differs : char_eq c d ≡ false = ground arith in
    let ih = split-plain d s (ground arith) in rw (differs, ih) refl

pub split-first :
    (d : Char) (p t : String) → includes d p ≡ false → split d (p +s (d ∷ᶜ t)) ≡ p ∷ split d t
unfolding split includes
split-first d String.[] t h =
    let same : char_eq d d ≡ true = ground arith in rw (nil-append (d ∷ᶜ t), same) refl
split-first d (String.◌∷◌ c p) t h =
    let differs : char_eq c d ≡ false = ground arith in
    let ih = split-first d p t (ground arith) in rw (cons-append c p (d ∷ᶜ t), differs, ih) refl

after_sep : (t : String) → "\n" +s t ≡ "\n" ∷ᶜ t
after_sep t = char-append "\n" t

split-join :
    (x : String) (xs : List String)
    → all is_line (x ∷ xs) ≡ true
    → split "\n" (join "\n" (x ∷ xs)) ≡ x ∷ xs
unfolding join
split-join x [] h = split-plain "\n" x (ground arith)
split-join x (y ∷ ys) h = rw (after_sep (join "\n" (y ∷ ys))) (
    split-first "\n" x (join "\n" (y ∷ ys)) (ground arith)
    ∙ ap (λ ps. x ∷ ps) (split-join y ys (ground arith)))

kept-lines :
    (xs : List String) → all is_line xs ≡ true → filter (λ l. not (l == "")) (map trim xs) ≡ xs
kept-lines [] h = refl
kept-lines (x ∷ xs) h =
    let full : not (x == "") ≡ true = ground arith in
    let same : trim x ≡ x = eq_of_test (trim x) x (ground arith) in
    let ih = kept-lines xs (ground arith) in rw (same, full, ih) refl

pub value_at-get :
    {N : Type 0} (d : Dict (Value N)) (k : String) {v : Value N}
    → get k d ≡ some v
    → value_at d k ≡ v
unfolding value_at
value_at-get d k h = ap or_missing h

module _ {N : Type 0} (js : JsNumbers N) where
  coerce-form_value :
      (kind : FieldType) (default v : Value N)
      → Storable js kind v
      → coerce js kind (text (form_value js default v)) ≡ v
  unfolding coerce form_value
  coerce-form_value kind default v (a_text s) = refl
  coerce-form_value kind default v (a_choice s) = refl
  coerce-form_value kind default v (an_area s) = refl
  coerce-form_value kind default v (a_flag true) = refl
  coerce-form_value kind default v (a_flag false) = refl
  coerce-form_value kind default v (a_number n back) = ap number back
  coerce-form_value kind default v (a_list x xs lines) = ap items (
      ap (λ ps. filter (λ l. not (l == "")) (map trim ps)) (split-join x xs lines)
      ∙ kept-lines (x ∷ xs) lines)

  get-values_from_other :
      (k : String) (fs : List (CatalogField N)) (config init : Dict (Value N))
      → has (map (λ f. f.key) fs) k ≡ false
      → get k (values_from js fs config init) ≡ get k init
  unfolding values_from
  get-values_from_other k [] config init h = refl
  get-values_from_other k (f ∷ fs) config init h =
      let differs : (f.key == k) ≡ false = ground (arith, eq_iff f.key k) in
      get-values_from_other k fs config _ (ground (arith, eq_iff f.key k))
      ∙ get-insert f.key k (text (form_value js f.default (value_at config f.key))) init
      ∙ rw differs refl

  get-values_from :
      (f : CatalogField N) (fs : List (CatalogField N)) (config init : Dict (Value N))
      → Distinct (map (λ f. f.key) fs)
      → In f fs
      → get f.key (values_from js fs config init)
        ≡ some (text (form_value js f.default (value_at config f.key)))
  unfolding values_from
  get-values_from f [] config init d at = not-In-nil at
  get-values_from f (g ∷ fs) config init (fresh, d) (at_head e) = rw e (
      get-values_from_other g.key fs config _ fresh
      ∙ get-insert g.key g.key (text (form_value js g.default (value_at config g.key))) init
      ∙ rw (eq_refl g.key) refl)
  get-values_from f (g ∷ fs) config init (fresh, d) (later at) = get-values_from f fs config _ d at

  -- Where the keys of the component are distinct, a field whose stored value has its type comes back
  -- unchanged: what the form makes of the value is coerced to the same value.
  pub values_from_config_restores :
      (component : CatalogComponent N) (config : Dict (Value N)) (f : CatalogField N)
      → Distinct (map (λ f. f.key) component.fields)
      → In f component.fields
      → Storable js f.field_type (value_at config f.key)
      → coerce js f.field_type (value_at (values_from_config js component config) f.key)
        ≡ value_at config f.key
  unfolding values_from_config
  values_from_config_restores component config f d at s =
      rw (value_at-get _ f.key (get-values_from f component.fields config [] d at))
        (coerce-form_value f.field_type f.default (value_at config f.key) s)
