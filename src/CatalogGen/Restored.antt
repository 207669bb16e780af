-- ===== src/CatalogGen/Restored.antt =====
-- The forms of the components that are made of a schema, in
-- frontend/src/components/catalog/ComponentConfigForm.tsx: they lose no stored value.
use vortex_flow.Common.{
  ℕ, String, Bool, List, [], ◌∷◌, ◌++◌, ◌≡◌, All, All-append, In, at_head, later, not-In-nil, Dict,
  subst,
}
use vortex_flow.Catalog.{CatalogField, CatalogComponent, Value, JsNumbers, coerce, value_at}
use vortex_flow.Catalog.Form.{Storable, values_from_config, values_from_config_restores}
use vortex_flow.CatalogGen.Outcome.{Outcome, returns}
use vortex_flow.CatalogGen.Json.{Json, NumberTests}
use vortex_flow.CatalogGen.Build.{schema_to_catalog}
use vortex_flow.CatalogGen.Ensures.{Ensures, returned, threw, overflowed}
use vortex_flow.CatalogGen.Sound.{IsEntry, schema_to_catalog-IsSound}

pub All-In : {A : Type 0} (P : A → Type 0) (xs : List A) {a : A} → All P xs → In a xs → P a
All-In P [] h at = not-In-nil at
All-In P (x ∷ xs) (p, h) (at_head e) = rw e p
All-In P (x ∷ xs) (p, h) (later at) = All-In P xs h at

pub Ensures-returns :
    {A : Type 0} {P : A → Type 0} {Q : Type 0} {m : Outcome A} {a : A}
    → Ensures P Q m
    → m ≡ returns a
    → P a
Ensures-returns {P = P} {a = b} (returned {a} p) e = let same : a ≡ b = cc e in subst P same p
Ensures-returns threw e = cc
Ensures-returns (overflowed q) e = cc

-- A value of its field's type that is stored for a component of the generated catalog comes back
-- unchanged from the form that is opened on it, where a number is given back by its text, and where a
-- list has an item, and each item of it is trimmed, not empty and without line break.
pub schema_to_catalog_restores :
    {N : Type 0} (js : NumberTests N) (numbers : JsNumbers N) (stack : ℕ)
    (before : String → String → Bool) (schema : Json N) (sources sinks : List (CatalogComponent N))
    → schema_to_catalog js stack before schema ≡ returns (sources, sinks)
    → (component : CatalogComponent N) (config : Dict (Value N)) (f : CatalogField N)
    → In component (sources ++ sinks)
    → In f component.fields
    → Storable numbers f.field_type (value_at config f.key)
    → coerce numbers f.field_type (value_at (values_from_config numbers component config) f.key)
      ≡ value_at config f.key
schema_to_catalog_restores js numbers stack before schema sources sinks made component config f at
      field stored =
    let (h, k) = Ensures-returns (schema_to_catalog-IsSound js stack before schema) made in
    let entry =
      All-In IsEntry (sources ++ sinks) (All-append IsEntry sources sinks h.entries k.entries) at in
    values_from_config_restores numbers component config f entry.form.distinct field stored
