-- ===== src/Catalog/Preview.antt =====
-- frontend/src/lib/catalog.ts: the YAML preview of a component.
use vortex_flow.Common.{
  String, Option, none, some, List, [], ◌∷◌, if◌then◌else◌, Dict, join, slug, ◌+s◌,
}
use vortex_flow.Catalog.{
  Value, text, JsNumbers, CatalogField, CatalogComponent, is_secret_key, kept_value, value_at,
  store,
}
use vortex_flow.Catalog.Yaml.{nest_dot_keys, object_to_yaml}

pub data ConfigKind : Type 0 where
  sources sinks transforms : ConfigKind

abbrev pub show_kind : ConfigKind → String
show_kind sources = "sources"
show_kind sinks = "sinks"
show_kind transforms = "transforms"

abbrev pub mask_text : String
mask_text = "••••••••"

module _ {N : Type 0} where
  abbrev pub mask : String → Value N → Value N
  mask key v = if is_secret_key key then text mask_text else v

  abbrev pub mask_kept : String → Option (Value N) → Option (Value N)
  mask_kept key none = none
  mask_kept key (some v) = some (mask key v)

module _ {N : Type 0} (js : JsNumbers N) where
  unfoldable pub flat_from :
      List (CatalogField N) → Dict (Value N) → Dict (Value N) → Dict (Value N)
  flat_from [] values flat = flat
  flat_from (f ∷ fs) values flat =
      flat_from fs values
        (store js f.key (mask_kept f.key (kept_value js f (value_at values f.key))) flat)

  unfoldable pub flat_config : CatalogComponent N → Dict (Value N) → Dict (Value N)
  flat_config component values =
      flat_from component.fields values (("type", text component.component_type) ∷ [])

  unfoldable pub generate_yaml :
      (String → String) → ConfigKind → CatalogComponent N → Dict (Value N) → String → String
  generate_yaml json kind component values name =
      let safe_name = slug name "component" in
      join "\n" (
        (show_kind kind +s ":")
        ∷ ("  " +s safe_name +s ":")
        ∷ object_to_yaml js json (nest_dot_keys (flat_config component values)) 4)
