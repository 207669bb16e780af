-- ===== src/Catalog/Checked.antt =====
-- The curated catalog is fit for its forms.
use vortex_flow.Common.{ℕ, String, true, some, all, ◌≡◌, refl, Dict, get, split, In, ◌⊎◌, inl, inr}
use vortex_flow.Catalog.{Value, JsNumbers, CatalogComponent, coerce_field_values}
use vortex_flow.Catalog.Yaml.{nest_dot_keys}
use vortex_flow.Catalog.Preview.{mask, flat_config}
use vortex_flow.Catalog.Nested.{apart, find_path}
use vortex_flow.Catalog.Lossless.{In-all, apart_keys, declared_keys, find-nest_dot_keys-flat_config}
use vortex_flow.Catalog.Curated.{curated_sources, curated_sinks}

curated_sources-apart :
    {N : Type 0} (of_nat : ℕ → N)
    → all (λ c. apart_keys (declared_keys c)) (curated_sources of_nat) ≡ true
unfolding apart_keys apart split
curated_sources-apart of_nat = refl

curated_sinks-apart :
    {N : Type 0} (of_nat : ℕ → N)
    → all (λ c. apart_keys (declared_keys c)) (curated_sinks of_nat) ≡ true
unfolding apart_keys apart split
curated_sinks-apart of_nat = refl

-- For every component of the curated catalog and whatever its form holds, each value that the form
-- saves stands in the nested config of the preview, masked where its key is secret.
pub find-nest_dot_keys-curated :
    {N : Type 0} (js : JsNumbers N) (of_nat : ℕ → N) (component : CatalogComponent N)
    (values : Dict (Value N)) (k : String) (v : Value N)
    → In component (curated_sources of_nat) ⊎ In component (curated_sinks of_nat)
    → get k (coerce_field_values js component values) ≡ some v
    → find_path (split "." k) (nest_dot_keys (flat_config js component values)) ≡ some (mask k v)
find-nest_dot_keys-curated js of_nat component values k v at saved =
    find-nest_dot_keys-flat_config js component values k v fit saved
  where
    of_side :
        In component (curated_sources of_nat) ⊎ In component (curated_sinks of_nat)
        → apart_keys (declared_keys component) ≡ true
    of_side (inl a) =
        In-all (λ c. apart_keys (declared_keys c)) (curated_sources of_nat)
          (curated_sources-apart of_nat) a
    of_side (inr a) =
        In-all (λ c. apart_keys (declared_keys c)) (curated_sinks of_nat)
          (curated_sinks-apart of_nat) a

    fit : apart_keys (declared_keys component) ≡ true
    fit = of_side at
