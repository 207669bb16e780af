-- ===== src/Library.antt =====
-- frontend/src/pages/Transforms.tsx: the export of the library of transforms, and the import of a file.
-- `parse` and `stringify` stand for `JSON.parse` and `JSON.stringify(v, null, 2)`, `as_text` for
-- `String(v)` of a value that is no text; `slice` counts UTF-16 code units.
pub mod Packed
pub mod Ended
mod Tests
use vortex_flow.Common.{
  ℕ, zero, suc, ◌+◌, ◌-◌, String, Bool, true, false, not, ◌||◌, ◌==◌, Option, none, some, List, [],
  ◌∷◌, map, if◌then◌else◌, lower, ends_with, trim, ltb,
}
use Prim.Native.String
use vortex_flow.CatalogGen.Json.{
  Json, undefined, null, boolean, num, string, array, object, field, is_nullish, elements,
  elements_of, object_of, string_of,
}
use vortex_flow.CatalogGen.Texts.{width, take_text}

pub record VrlTransform : Type 0 where
  pub id : String
  pub name : String
  pub description : Option String
  pub source_vrl : String
  pub created_at : String
  pub updated_at : String

pub record CreateTransform (N : Type 0) : Type 0 where
  pub name : String
  pub description : Json N
  pub source_vrl : String

-- The requests that were sent, with whether one was taken, and whether an item made the loop throw.
pub record ImportLoop (N : Type 0) : Type 0 where
  pub sent : List (CreateTransform N)
  pub created : ℕ
  pub threw : Bool

-- How an import ends.
pub record Imported (N : Type 0) : Type 0 where
  pub sent : List (CreateTransform N)
  pub created : ℕ
  pub error : Option String
  pub reloads : Bool
  pub threw : Bool

-- `s.length`, in UTF-16 code units
abbrev pub text_length : String → ℕ
text_length String.[] = zero
text_length (String.◌∷◌ c s) = width c + text_length s

-- `name.replace(/\.(vrl|txt)$/i, '')`
abbrev pub without_extension : String → String
without_extension name =
    if ends_with (lower name) ".vrl" || ends_with (lower name) ".txt"
    then take_text (text_length name - 4) name
    else name

abbrev pub or_imported : String → String
or_imported s = if s == "" then "imported" else s

abbrev pub is_some_text : Option String → Bool
is_some_text none = false
is_some_text (some s) = true

module _ {N : Type 0} where
  abbrev pub or_null : Option String → Json N
  or_null none = null
  or_null (some s) = string s

  abbrev pub exported : VrlTransform → Json N
  exported t = object_of (
      ("name", string t.name)
      ∷ ("description", or_null t.description)
      ∷ ("source_vrl", string t.source_vrl)
      ∷ [])

  -- The bundle of `exportAll`.
  unfoldable pub bundle : N → List VrlTransform → Json N
  bundle one transforms = object_of (
      ("vortexflow_pack", string "vrl-transforms")
      ∷ ("version", num one)
      ∷ ("transforms", array (elements_of (map exported transforms)))
      ∷ [])

  -- `v ?? null`
  abbrev pub nullish_to_null : Json N → Json N
  nullish_to_null v = if is_nullish v then null else v

  -- Of a file that is no JSON.
  abbrev pub single_item : String → String → List (Json N)
  single_item name content =
      object_of (("name", string (without_extension name)) ∷ ("source_vrl", string content) ∷ [])
      ∷ []

  abbrev pub item_alone : Json N → Option String → Option (List (Json N))
  item_alone d none = none
  item_alone d (some s) = some (d ∷ [])

  abbrev pub items_in : Json N → Option (List (Json N)) → Option (List (Json N))
  items_in d none = item_alone d (string_of (field "source_vrl" d))
  items_in d (some items) = some items

module _ {N : Type 0} (as_text : Json N → String) where
  -- `String(v ?? 'imported')`
  abbrev pub show_name : Json N → String
  show_name undefined = "imported"
  show_name null = "imported"
  show_name (boolean b) = as_text (boolean b)
  show_name (num n) = as_text (num n)
  show_name (string s) = s
  show_name (array vs) = as_text (array vs)
  show_name (object es) = as_text (object es)

  abbrev pub create_request : Json N → String → CreateTransform N
  create_request it vrl = record {
    name = or_imported (take_text 255 (show_name (field "name" it)));
    description = nullish_to_null (field "description" it);
    source_vrl = vrl;
  }

  -- What the loop sends for an item, if anything.
  abbrev pub request_for : Json N → Option String → Option (CreateTransform N)
  request_for it none = none
  request_for it (some vrl) = if trim vrl == "" then none else some (create_request it vrl)

module _ {N : Type 0} (parse : String → Option (Json N)) (as_text : Json N → String)
    (accepts : CreateTransform N → Bool) where
  abbrev pub send_one : Option (CreateTransform N) → ImportLoop N → ImportLoop N
  send_one none r = r
  send_one (some request) r = record {
    sent = request ∷ r.sent;
    created = if accepts request then suc r.created else r.created;
    threw = r.threw;
  }

  unfoldable pub import_items : List (Json N) → ImportLoop N
  import_items [] = record { sent = []; created = 0; threw = false }
  import_items (it ∷ items) =
      let rest = import_items items in
      if is_nullish it
      then record { sent = []; created = 0; threw = true }
      else send_one (request_for as_text it (string_of (field "source_vrl" it))) rest

  abbrev pub refused : String → Imported N
  refused message = record {
    sent = [];
    created = 0;
    error = some message;
    reloads = false;
    threw = false;
  }

  abbrev pub finished : ImportLoop N → Imported N
  finished r =
      if r.threw
      then record {
        sent = r.sent;
        created = r.created;
        error = none;
        reloads = false;
        threw = true;
      }
      else if ltb 0 r.created
      then record {
        sent = r.sent;
        created = r.created;
        error = none;
        reloads = true;
        threw = false;
      }
      else record {
        sent = r.sent;
        created = r.created;
        error = some "Nothing imported — check the file contents (names may already exist).";
        reloads = false;
        threw = false;
      }

  abbrev pub import_found : Option (List (Json N)) → Imported N
  import_found none = refused "Unrecognized file — expected a transform or a vrl-transforms pack."
  import_found (some items) = finished (import_items items)

  abbrev pub import_json : Option (Json N) → Imported N
  import_json none = refused "Invalid JSON file."
  import_json (some d) = import_found (items_in d (elements (field "transforms" d)))

  unfoldable pub import_file : String → String → Imported N
  import_file name content =
      if ends_with (lower name) ".json"
      then import_json (parse content)
      else finished (import_items (single_item name content))
