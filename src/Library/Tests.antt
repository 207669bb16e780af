-- ===== src/Library/Tests.antt =====
-- The export and the import of a library of two transforms.
use vortex_flow.Common.{
  ℕ, String, Bool, true, Option, none, some, List, [], ◌∷◌, map, any, ◌==◌, not, ◌≡◌, refl, trim,
  trim_start, trim_end, is_space, ends_with, lower, translate, get,
}
use vortex_flow.CatalogGen.Json.{Json, null, string, array, elements_of, object_of, field}
use vortex_flow.CatalogGen.Texts.{take_text}
use vortex_flow.Library.{VrlTransform, CreateTransform, bundle, import_items, import_file}
use vortex_flow.Library.Packed.{restored, import_file-bundle}
use vortex_flow.Library.Ended.{IsEnded, file_items, import_file-IsEnded}

abbrev transform : String → Option String → VrlTransform
transform name description = record {
  id = name;
  name = name;
  description = description;
  source_vrl = ". = {}";
  created_at = "";
  updated_at = "";
}

abbrev two : List VrlTransform
two = transform "drop" none ∷ transform "parse" (some "syslog") ∷ []

abbrev read : String → Option (Json ℕ)
read content = some (bundle 1 two)

abbrev write : Json ℕ → String
write v = "pack"

abbrev no_text : Json ℕ → String
no_text v = ""

-- The server has a transform named "drop".
abbrev accepts : CreateTransform ℕ → Bool
accepts r = not (r.name == "drop")

import_file-bundle_example :
    ((import_file read no_text accepts "vrl-library.json" (write (bundle 1 two))).sent
      ≡ map restored two)
    × ((import_file read no_text accepts "vrl-library.json" (write (bundle 1 two))).reloads
        ≡ any accepts (map restored two))
unfolding trim trim_start trim_end is_space take_text
import_file-bundle_example = import_file-bundle read no_text accepts write 1 two refl refl

-- The item after the null one is not sent.
abbrev read_null : String → Option (Json ℕ)
read_null content = some (
    object_of (
      (
        "transforms",
        array (elements_of (null ∷ object_of (("source_vrl", string ". = {}") ∷ []) ∷ [])),
      )
      ∷ []))

null_throws : (import_file read_null no_text accepts "pack.json" "").threw ≡ true
unfolding import_file ends_with lower translate field get import_items
null_throws = refl

import_file-IsEnded_example :
    IsEnded no_text accepts
      (file_items read_null "pack.json" "")
      (import_file read_null no_text accepts "pack.json" "")
import_file-IsEnded_example = import_file-IsEnded read_null no_text accepts "pack.json" ""
