-- ===== src/Catalog/Fields.antt =====
-- frontend/src/lib/catalog.ts: the form of the entries of the curated catalog.
use vortex_flow.Common.{String, Bool, false, Option, List}
use vortex_flow.Catalog.{Value, FieldType, CatalogField, CatalogComponent}

abbrev pub catalog_field :
    {N : Type 0}
    → String
    → String
    → FieldType
    → Bool
    → Value N
    → Option String
    → Option String
    → List (String × String)
    → Option String
    → CatalogField N
catalog_field key label kind required default placeholder hint options group = record {
  key = key;
  label = label;
  field_type = kind;
  required = required;
  default = default;
  placeholder = placeholder;
  hint = hint;
  options = options;
  group = group;
  generated = false;
}

abbrev pub catalog_component :
    {N : Type 0} → String → String → String → String → List (CatalogField N) → CatalogComponent N
catalog_component component_type name description category fields = record {
  component_type = component_type;
  name = name;
  description = description;
  category = category;
  fields = fields;
  generated = false;
}
