-- ===== src/Tap/Inferred.antt =====
-- frontend/src/components/shared/LiveTap.tsx: `inferFields`, the fields of a sample of tapped events.
-- `parse` stands for `JSON.parse`, `percent` for `Math.round((count / n) * 100)`, and `before` for
-- `a.localeCompare(b) < 0`.
pub mod Counted
mod Tests
use vortex_flow.Common.{
  ℕ, zero, suc, ◌+◌, String, Bool, true, false, Option, none, some, List, [], ◌∷◌, Dict, get,
  insert, add, if◌then◌else◌, show, nat_eq,
}
use vortex_flow.CatalogGen.Json.{
  Json, undefined, null, boolean, num, string, array, object, list_of, dict_of, indexed, field,
  string_of,
}

pub record FieldInfo : Type 0 where
  pub name : String
  pub types : List String
  pub pct : ℕ

-- What `seen` holds of a field.
pub record SeenField : Type 0 where
  pub types : List String
  pub count : ℕ

abbrev pub or_unseen : Option SeenField → SeenField
or_unseen none = record { types = []; count = 0 }
or_unseen (some c) = c

module _ {N : Type 0} where
  -- `Array.isArray(v) ? 'array' : v === null ? 'null' : typeof v`
  abbrev pub type_name : Json N → String
  type_name undefined = "undefined"
  type_name null = "null"
  type_name (boolean b) = "boolean"
  type_name (num n) = "number"
  type_name (string s) = "string"
  type_name (array vs) = "array"
  type_name (object es) = "object"

  -- `Object.entries` of what was parsed, where that is an object or an array.
  abbrev pub record_entries : Json N → Option (Dict (Json N))
  record_entries undefined = none
  record_entries null = none
  record_entries (boolean b) = none
  record_entries (num n) = none
  record_entries (string s) = none
  record_entries (array vs) = some (indexed 0 (list_of vs))
  record_entries (object es) = some (dict_of es)

  abbrev pub entries_parsed : Option (Json N) → Option (Dict (Json N))
  entries_parsed none = none
  entries_parsed (some v) = record_entries v

  abbrev pub entries_of_text : (String → Option (Json N)) → Option String → Option (Dict (Json N))
  entries_of_text parse none = none
  entries_of_text parse (some s) = entries_parsed (parse s)

  abbrev pub push_record : Option (Dict (Json N)) → List (Dict (Json N)) → List (Dict (Json N))
  push_record none records = records
  push_record (some r) records = r ∷ records

  -- The records of the events, those with none left out.
  unfoldable pub records_of : (String → Option (Json N)) → List (Json N) → List (Dict (Json N))
  records_of parse [] = []
  records_of parse (raw ∷ raws) =
      push_record (entries_of_text parse (string_of (field "string" raw))) (records_of parse raws)

  -- One round of the inner loop; `cur` is stored again where it was.
  unfoldable pub note_value : String → Json N → Dict SeenField → Dict SeenField
  note_value k v seen =
      insert k
        (record {
          types = add (or_unseen (get k seen)).types (type_name v);
          count = suc (or_unseen (get k seen)).count;
        })
        seen

  unfoldable pub note_record : Dict (Json N) → Dict SeenField → Dict SeenField
  note_record [] seen = seen
  note_record ((k, v) ∷ es) seen = note_record es (note_value k v seen)

  unfoldable pub note_records : List (Dict (Json N)) → Dict SeenField → Dict SeenField
  note_records [] seen = seen
  note_records (r ∷ rs) seen = note_records rs (note_record r seen)

abbrev pub count_all : {A : Type 0} → List A → ℕ
count_all [] = zero
count_all (x ∷ xs) = suc (count_all xs)

unfoldable pub insert_named : (String → String → Bool) → FieldInfo → List FieldInfo → List FieldInfo
insert_named before f [] = f ∷ []
insert_named before f (g ∷ gs) =
    if before f.name g.name then f ∷ g ∷ gs else g ∷ insert_named before f gs

-- The entries of `seen` as fields, sorted by name; `n` is the number of records.
unfoldable pub sorted_fields :
    (ℕ → ℕ → ℕ) → (String → String → Bool) → ℕ → Dict SeenField → List FieldInfo → List FieldInfo
sorted_fields percent before n [] fields = fields
sorted_fields percent before n ((k, c) ∷ seen) fields = sorted_fields percent before n seen (
    insert_named before
      (record { name = k; types = c.types; pct = if nat_eq n 0 then 0 else percent c.count n })
      fields)

unfoldable pub infer_fields :
    {N : Type 0}
    → (String → Option (Json N))
    → (ℕ → ℕ → ℕ)
    → (String → String → Bool)
    → List (Json N)
    → List FieldInfo
infer_fields parse percent before events =
    sorted_fields percent before (count_all (records_of parse events))
      (note_records (records_of parse events) []) []
