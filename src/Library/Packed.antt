-- ===== src/Library/Packed.antt =====
-- A library that is exported and imported again is sent as it was.
use vortex_flow.Common.{
  ℕ, ◌-◌, leb, String, Bool, true, false, not, ◌&&◌, ◌==◌, Option, none, some, List, [], ◌∷◌, map,
  all, any, ltb, trim, ◌≡◌, refl, ap, arith, lower, ends_with, translate, get,
}
use vortex_flow.CatalogGen.Json.{Json, string_of, elements, field, elements_of, list_of}
use vortex_flow.CatalogGen.Texts.{width, take_text}
use vortex_flow.Library.{
  VrlTransform, CreateTransform, ImportLoop, or_null, exported, bundle, nullish_to_null,
  request_for, items_in, text_length, import_items, import_file, finished,
}

-- A transform that an import can make again: it has a name of at most 255 UTF-16 code
-- units, and a program.
abbrev pub is_importable : VrlTransform → Bool
is_importable t =
    not (t.name == "") && (leb (text_length t.name) 255 && not (trim t.source_vrl == ""))

-- A text of at most `n` code units is not cut.
take_text-short : (s : String) (n : ℕ) → leb (text_length s) n ≡ true → take_text n s ≡ s
unfolding take_text
take_text-short String.[] n h = refl
take_text-short (String.◌∷◌ c s) n h =
    let fits : leb (width c) n ≡ true = ground arith in
    let rest = take_text-short s (n - width c) (ground arith) in rw (fits, rest) refl

-- The request that makes a transform again.
abbrev pub restored : {N : Type 0} → VrlTransform → CreateTransform N
restored t = record {
  name = t.name;
  description = or_null t.description;
  source_vrl = t.source_vrl;
}

list_of-elements_of : {N : Type 0} (vs : List (Json N)) → list_of (elements_of vs) ≡ vs
list_of-elements_of [] = refl
list_of-elements_of (v ∷ vs) = ap (λ us. v ∷ us) (list_of-elements_of vs)

nullish_to_null-or_null :
    {N : Type 0} (d : Option String) → nullish_to_null {N = N} (or_null d) ≡ or_null d
nullish_to_null-or_null none = refl
nullish_to_null-or_null (some s) = refl

request_for-exported :
    {N : Type 0} (as_text : Json N → String) (t : VrlTransform)
    → is_importable t ≡ true
    → request_for as_text (exported t) (string_of (field "source_vrl" (exported {N = N} t)))
      ≡ some (restored t)
unfolding field get
request_for-exported as_text t h =
    let named : (t.name == "") ≡ false = ground arith in
    let short : take_text 255 t.name ≡ t.name = take_text-short t.name 255 (ground arith) in
    let full : (trim t.source_vrl == "") ≡ false = ground arith in
    rw (full, short, named, nullish_to_null-or_null t.description) refl

is_json_file : ends_with (lower "vrl-library.json") ".json" ≡ true
unfolding ends_with lower translate
is_json_file = refl

module _ {N : Type 0} (parse : String → Option (Json N)) (as_text : Json N → String)
    (accepts : CreateTransform N → Bool) where
  import_items-exported :
      (transforms : List VrlTransform)
      → all is_importable transforms ≡ true
      → ((import_items parse as_text accepts (map exported transforms)).sent
          ≡ map restored transforms)
        × ((import_items parse as_text accepts (map exported transforms)).threw ≡ false)
        × (ltb 0 (import_items parse as_text accepts (map exported transforms)).created
            ≡ any accepts (map restored transforms))
  unfolding import_items
  import_items-exported [] h = (refl, refl, refl)
  import_items-exported (t ∷ ts) h =
      let (sent, threw, created) = import_items-exported ts (ground arith) in
      rw (request_for-exported as_text t (ground arith))
        (ap (λ rs. restored t ∷ rs) sent, threw, ground (arith, created))

  -- Where every transform of a library has a name that is not empty and has at most 255 UTF-16 code
  -- units, and a program that is not blank, and what is written for the bundle of the library is read
  -- back as it: an import of the bundle sends each transform once, in the order of the library, whichever
  -- the server refuses; and the library is loaded again just where the server takes one.
  pub import_file-bundle :
      (stringify : Json N → String) (one : N) (transforms : List VrlTransform)
      → parse (stringify (bundle one transforms)) ≡ some (bundle one transforms)
      → all is_importable transforms ≡ true
      → ((import_file parse as_text accepts "vrl-library.json"
            (stringify (bundle one transforms))).sent
          ≡ map restored transforms)
        × ((import_file parse as_text accepts "vrl-library.json"
              (stringify (bundle one transforms))).reloads
            ≡ any accepts (map restored transforms))
  unfolding import_file
  import_file-bundle stringify one transforms read h =
      let (sent, threw, created) = import_items-exported transforms h in
      let found : items_in (bundle one transforms)
            (elements (field "transforms" (bundle one transforms)))
          ≡ some (map exported transforms) =
        found_items one transforms in
      rw (is_json_file, read, found)
        (ends (import_items parse as_text accepts (map exported transforms)) _ _ sent threw created)
    where
      found_items :
          (one : N) (ts : List VrlTransform)
          → items_in (bundle one ts) (elements (field "transforms" (bundle one ts)))
            ≡ some (map exported ts)
      found_items one ts =
          unfold bundle field get in ap some (list_of-elements_of (map exported ts))

      ends :
          (r : ImportLoop N) (requests : List (CreateTransform N)) (b : Bool)
          → r.sent ≡ requests
          → r.threw ≡ false
          → ltb 0 r.created ≡ b
          → ((finished parse as_text accepts r).sent ≡ requests)
            × ((finished parse as_text accepts r).reloads ≡ b)
      ends r requests b sent threw created =
          (ground (arith, sent, threw, created), ground (arith, sent, threw, created))
