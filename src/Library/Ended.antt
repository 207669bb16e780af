-- ===== src/Library/Ended.antt =====
-- How an import ends, whatever the file holds.
use vortex_flow.Common.{
  ℕ, zero, suc, String, Bool, not, ◌&&◌, Option, none, some, List, [], ◌∷◌, ltb, if◌then◌else◌, ◌≡◌,
  refl, arith, Bool-cases, inl, inr, ends_with, lower, any, ap,
}
use vortex_flow.CatalogGen.Json.{Json, string_of, field, is_nullish, elements}
use vortex_flow.CatalogGen.Nodes.{filter_map}
use vortex_flow.Library.{
  CreateTransform, ImportLoop, Imported, request_for, send_one, import_items, finished,
  import_found, import_json, import_file, single_item, items_in, is_some_text, refused,
}

abbrev or_nil : {A : Type 0} → Option (List A) → List A
or_nil none = []
or_nil (some items) = items

-- How many of the requests the server takes.
abbrev pub count : {N : Type 0} → (CreateTransform N → Bool) → List (CreateTransform N) → ℕ
count accepts [] = zero
count accepts (r ∷ rs) = if accepts r then suc (count accepts rs) else count accepts rs

-- The items of a file: those of a pack, a transform alone, or one made of a file that is no JSON; and
-- none where the file cannot be read or holds neither.
abbrev pub file_items : {N : Type 0} → (String → Option (Json N)) → String → String → List (Json N)
file_items parse name content =
    if ends_with (lower name) ".json"
    then elim (parse content) [
      | none ↦ []
      | some d ↦ or_nil (items_in d (elements (field "transforms" d)))
    ]
    else single_item name content

-- The items up to the first that is null.
abbrev pub before_null : {N : Type 0} → List (Json N) → List (Json N)
before_null [] = []
before_null (it ∷ items) = if is_nullish it then [] else it ∷ before_null items

-- The end of an import of items: a request for each item before the first that is null, in their order,
-- but for those that have no program; a throw just where an item is null; the number of transforms that
-- were made; a new list where there are some, and else a message, and neither after a throw.
pub record IsEnded {N : Type 0} (as_text : Json N → String) (accepts : CreateTransform N → Bool)
    (items : List (Json N)) (r : Imported N) : Type 0 where
  pub requests :
      r.sent
      ≡ filter_map
          (λ it. request_for as_text it (string_of (field "source_vrl" it)))
          (before_null items)
  pub thrown : r.threw ≡ any is_nullish items
  pub counted : r.created ≡ count accepts r.sent
  pub reloaded : r.reloads ≡ (not r.threw && ltb 0 r.created)
  pub told : is_some_text r.error ≡ (not r.threw && not (ltb 0 r.created))

module _ {N : Type 0} (parse : String → Option (Json N)) (as_text : Json N → String)
    (accepts : CreateTransform N → Bool) where
  import_items-count :
      (items : List (Json N))
      → (import_items parse as_text accepts items).created
        ≡ count accepts (import_items parse as_text accepts items).sent
  unfolding import_items
  import_items-count [] = refl
  import_items-count (it ∷ items) = elim (Bool-cases (is_nullish it)) [
    | inl e ↦ rw e refl
    | inr e ↦ rw e (
        sent (request_for as_text it (string_of (field "source_vrl" it))) _
          (import_items-count items))
  ]
    where
      sent :
          (o : Option (CreateTransform N)) (r : ImportLoop N)
          → r.created ≡ count accepts r.sent
          → (send_one parse as_text accepts o r).created
            ≡ count accepts (send_one parse as_text accepts o r).sent
      sent none r h = h
      sent (some request) r h = ground (arith, h)

  import_items-sent :
      (items : List (Json N))
      → ((import_items parse as_text accepts items).sent
          ≡ filter_map
              (λ it. request_for as_text it (string_of (field "source_vrl" it)))
              (before_null items))
        × ((import_items parse as_text accepts items).threw ≡ any is_nullish items)
  unfolding import_items
  import_items-sent [] = (refl, refl)
  import_items-sent (it ∷ items) = elim (Bool-cases (is_nullish it)) [
    | inl e ↦ rw e (refl, refl)
    | inr e ↦ rw e (
        one (request_for as_text it (string_of (field "source_vrl" it))) _ _ _
          (import_items-sent items))
  ]
    where
      one :
          (o : Option (CreateTransform N)) (r : ImportLoop N) (rest : List (CreateTransform N))
          (b : Bool)
          → (r.sent ≡ rest) × (r.threw ≡ b)
          → ((send_one parse as_text accepts o r).sent ≡ elim o [ none ↦ rest | some q ↦ q ∷ rest ])
            × ((send_one parse as_text accepts o r).threw ≡ b)
      one none r rest b h = h
      one (some q) r rest b h = (ap (λ qs. q ∷ qs) h.0, h.1)

  finished-IsEnded :
      (items : List (Json N))
      → IsEnded as_text accepts items
          (finished parse as_text accepts (import_items parse as_text accepts items))
  finished-IsEnded items =
      let r = import_items parse as_text accepts items in
      let h = import_items-count items in
      let (sent, threw) = import_items-sent items in
      record {
        requests = ground (arith, sent);
        thrown = ground (arith, threw);
        counted = ground (arith, h);
        reloaded = ground (arith, h);
        told = ground (arith, h);
      }

  refused-IsEnded :
      (message : String) → IsEnded as_text accepts [] (refused parse as_text accepts message)
  refused-IsEnded message = record {
    requests = refl;
    thrown = refl;
    counted = refl;
    reloaded = refl;
    told = refl;
  }

  import_found-IsEnded :
      (o : Option (List (Json N)))
      → IsEnded as_text accepts (or_nil o) (import_found parse as_text accepts o)
  import_found-IsEnded none = refused-IsEnded _
  import_found-IsEnded (some items) = finished-IsEnded items

  import_json-IsEnded :
      (o : Option (Json N))
      → IsEnded as_text accepts
          (elim o [ none ↦ [] | some d ↦ or_nil (items_in d (elements (field "transforms" d))) ])
          (import_json parse as_text accepts o)
  import_json-IsEnded none = refused-IsEnded _
  import_json-IsEnded (some d) = import_found-IsEnded (items_in d (elements (field "transforms" d)))

  -- Whatever the file: the import sends, in order, the requests for the items before the first that is
  -- null, those without a program left out; the number that it made is that of the requests that the
  -- server took; it throws just where an item is null; else the library is loaded again just where the
  -- number is not zero, and a message is shown just where it is; and after a throw neither happens.
  pub import_file-IsEnded :
      (name content : String)
      → IsEnded as_text accepts
          (file_items parse name content)
          (import_file parse as_text accepts name content)
  unfolding import_file
  import_file-IsEnded name content = elim (Bool-cases (ends_with (lower name) ".json")) [
    | inl e ↦ rw e (import_json-IsEnded (parse content))
    | inr e ↦ rw e (finished-IsEnded (single_item name content))
  ]
