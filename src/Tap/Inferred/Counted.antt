-- ===== src/Tap/Inferred/Counted.antt =====
-- Each field of the schema is counted once for each record that has it.
use vortex_flow.Common.{
  ℕ, zero, suc, ◌+◌, String, Bool, true, false, ◌==◌, ◌||◌, Option, some, List, [], ◌∷◌, Dict, get,
  get-insert, keys, has, add, All, Distinct, map, any, if◌then◌else◌, nat_eq, ◌≡◌, refl, sym, ap,
  ◌∙◌, arith, eq_iff, eq_refl, Bool-cases, inl, inr,
}
use vortex_flow.CatalogGen.Json.{Json}
use vortex_flow.CatalogGen.Sorted.{Distinct-insert, has-insert}
use vortex_flow.Tap.Inferred.{
  FieldInfo, SeenField, type_name, or_unseen, note_value, note_record, note_records, count_all,
  insert_named, sorted_fields, infer_fields, records_of,
}

-- How many entries of a record have the key, and how many of all records.
abbrev pub times : {V : Type 0} → String → Dict V → ℕ
times k [] = zero
times k ((j, v) ∷ d) = if j == k then suc (times k d) else times k d

abbrev pub times_in : {V : Type 0} → String → List (Dict V) → ℕ
times_in k [] = zero
times_in k (d ∷ ds) = times k d + times_in k ds

-- How many of the records have the key.
abbrev pub having : {V : Type 0} → String → List (Dict V) → ℕ
having k [] = zero
having k (d ∷ ds) = if has (keys d) k then suc (having k ds) else having k ds

times-fresh : {V : Type 0} (k : String) (d : Dict V) → has (keys d) k ≡ false → times k d ≡ 0
times-fresh k [] h = refl
times-fresh k ((j, v) ∷ d) h = ground (arith, times-fresh k d)

times-Distinct :
    {V : Type 0} (k : String) (d : Dict V)
    → Distinct (keys d)
    → times k d ≡ (if has (keys d) k then 1 else 0)
times-Distinct k [] h = refl
times-Distinct k ((j, v) ∷ d) (fresh, h) = elim (Bool-cases (j == k)) [
  | inl e ↦
      let none_left = times-fresh k d (ap (has (keys d)) (sym ((eq_iff j k).0 e)) ∙ fresh) in
      rw (e, none_left) refl
  | inr e ↦ rw e (times-Distinct k d h)
]

times_in-having :
    {V : Type 0} (k : String) (ds : List (Dict V))
    → All (λ d. Distinct (keys d)) ds
    → times_in k ds ≡ having k ds
times_in-having k [] h = refl
times_in-having k (d ∷ ds) (u, h) = ground (arith, times-Distinct k d u, times_in-having k ds h)

abbrev count_at : String → Dict SeenField → ℕ
count_at k seen = (or_unseen (get k seen)).count

module _ {N : Type 0} where
  note_value-count :
      (k j : String) (v : Json N) (seen : Dict SeenField)
      → count_at k (note_value j v seen)
        ≡ (if j == k then suc (count_at k seen) else count_at k seen)
  unfolding note_value
  note_value-count k j v seen =
      ap (λ o. (or_unseen o).count)
        (get-insert j k
          (record {
            types = add (or_unseen (get j seen)).types (type_name v);
            count = suc (or_unseen (get j seen)).count;
          })
          seen)
      ∙ counted
    where
      counted :
          (or_unseen (
            if j == k
            then some (record {
              types = add (or_unseen (get j seen)).types (type_name v);
              count = suc (or_unseen (get j seen)).count;
            })
            else get k seen)).count
          ≡ (if j == k then suc (count_at k seen) else count_at k seen)
      counted = elim (Bool-cases (j == k)) [
        | inl e ↦ let same : j ≡ k = (eq_iff j k).0 e in rw e (ap (λ x. suc (count_at x seen)) same)
        | inr e ↦ rw e refl
      ]

  note_record-count :
      (k : String) (d : Dict (Json N)) (seen : Dict SeenField)
      → count_at k (note_record d seen) ≡ times k d + count_at k seen
  unfolding note_record
  note_record-count k [] seen = ground arith
  note_record-count k ((j, v) ∷ d) seen =
      note_record-count k d (note_value j v seen) ∙ ground (arith, note_value-count k j v seen)

  note_records-count :
      (k : String) (ds : List (Dict (Json N))) (seen : Dict SeenField)
      → count_at k (note_records ds seen) ≡ times_in k ds + count_at k seen
  unfolding note_records
  note_records-count k [] seen = ground arith
  note_records-count k (d ∷ ds) seen =
      note_records-count k ds (note_record d seen) ∙ ground (arith, note_record-count k d seen)

  note_record-Distinct :
      (d : Dict (Json N)) (seen : Dict SeenField)
      → Distinct (keys seen)
      → Distinct (keys (note_record d seen))
  unfolding note_record note_value
  note_record-Distinct [] seen h = h
  note_record-Distinct ((j, v) ∷ d) seen h =
      note_record-Distinct d (note_value j v seen) (Distinct-insert j _ seen h)

  note_records-Distinct :
      (ds : List (Dict (Json N))) (seen : Dict SeenField)
      → Distinct (keys seen)
      → Distinct (keys (note_records ds seen))
  unfolding note_records
  note_records-Distinct [] seen h = h
  note_records-Distinct (d ∷ ds) seen h =
      note_records-Distinct ds (note_record d seen) (note_record-Distinct d seen h)

-- Each entry of a map holds what is found under its key.
All-entries :
    (n : String → ℕ) (seen : Dict SeenField)
    → Distinct (keys seen)
    → ((k : String) → has (keys seen) k ≡ true → count_at k seen ≡ n k)
    → All (λ e. e.1.count ≡ n e.0) seen
unfolding get
All-entries n [] h counts = tt
All-entries n ((k, c) ∷ seen) (fresh, h) counts =
    let here : c.count ≡ n k = rw (count_at, eq_refl k) at (counts k (ground (arith, eq_refl k))) in
    (
      here,
      All-entries n seen h
          (λ j there. rw (count_at, apart j there) at (counts j (ground (arith, there)))),
    )
  where
    apart : (j : String) → has (keys seen) j ≡ true → (k == j) ≡ false
    apart j there = ground (arith, eq_iff k j, fresh, ap (has (keys seen)), there)

All-insert_named :
    (P : FieldInfo → Type 0) (before : String → String → Bool) (f : FieldInfo) (fs : List FieldInfo)
    → P f
    → All P fs
    → All P (insert_named before f fs)
unfolding insert_named
All-insert_named P before f [] p h = (p, tt)
All-insert_named P before f (g ∷ gs) p (q, h) = elim (Bool-cases (before f.name g.name)) [
  | inl e ↦ rw e (p, (q, h))
  | inr e ↦ rw e (q, All-insert_named P before f gs p h)
]

-- The share of a count.
abbrev pub share : (ℕ → ℕ → ℕ) → ℕ → ℕ → ℕ
share percent n count = if nat_eq n 0 then 0 else percent count n

sorted_fields-share :
    (percent : ℕ → ℕ → ℕ) (before : String → String → Bool) (n : ℕ) (counts : String → ℕ)
    (seen : Dict SeenField) (fs : List FieldInfo)
    → All (λ e. e.1.count ≡ counts e.0) seen
    → All (λ f. f.pct ≡ share percent n (counts f.name)) fs
    → All (λ f. f.pct ≡ share percent n (counts f.name)) (sorted_fields percent before n seen fs)
unfolding sorted_fields
sorted_fields-share percent before n counts [] fs h k = k
sorted_fields-share percent before n counts ((j, c) ∷ seen) fs (e, h) k =
    sorted_fields-share percent before n counts seen _ h (
      All-insert_named (λ f. f.pct ≡ share percent n (counts f.name)) before _ fs
        (ap (share percent n) e) k)

abbrev pub names_of : List FieldInfo → List String
names_of fs = map (λ f. f.name) fs

has-insert_named :
    (before : String → String → Bool) (f : FieldInfo) (fs : List FieldInfo) (k : String)
    → has (names_of (insert_named before f fs)) k ≡ (f.name == k || has (names_of fs) k)
unfolding insert_named
has-insert_named before f [] k = refl
has-insert_named before f (g ∷ gs) k = ground (arith, has-insert_named before f gs k)

has-sorted_fields :
    (percent : ℕ → ℕ → ℕ) (before : String → String → Bool) (n : ℕ) (seen : Dict SeenField)
    (fs : List FieldInfo) (k : String)
    → has (names_of (sorted_fields percent before n seen fs)) k
      ≡ (has (keys seen) k || has (names_of fs) k)
unfolding sorted_fields
has-sorted_fields percent before n [] fs k = refl
has-sorted_fields percent before n ((j, c) ∷ seen) fs k =
    let f : FieldInfo = record {
      name = j;
      types = c.types;
      pct = if nat_eq n 0 then 0 else percent c.count n;
    } in
    has-sorted_fields percent before n seen (insert_named before f fs) k
    ∙ ground (arith, has-insert_named before f fs k)

module _ {N : Type 0} where
  has-note_record :
      (d : Dict (Json N)) (seen : Dict SeenField) (k : String)
      → has (keys (note_record d seen)) k ≡ (has (keys d) k || has (keys seen) k)
  unfolding note_record note_value
  has-note_record [] seen k = refl
  has-note_record ((j, v) ∷ d) seen k =
      let c : SeenField = record {
        types = add (or_unseen (get j seen)).types (type_name v);
        count = suc (or_unseen (get j seen)).count;
      } in
      has-note_record d (note_value j v seen) k ∙ ground (arith, has-insert j c seen k)

  has-note_records :
      (ds : List (Dict (Json N))) (seen : Dict SeenField) (k : String)
      → has (keys (note_records ds seen)) k ≡ (any (λ d. has (keys d) k) ds || has (keys seen) k)
  unfolding note_records
  has-note_records [] seen k = refl
  has-note_records (d ∷ ds) seen k =
      has-note_records ds (note_record d seen) k ∙ ground (arith, has-note_record d seen k)

-- Where no record has a key twice, as `JSON.parse` has it: a name is listed just where some record has
-- it as a key; and the share of each field that is listed is that of the number of records that have it
-- in the number of all records.
pub infer_fields-share :
    {N : Type 0} (parse : String → Option (Json N)) (percent : ℕ → ℕ → ℕ)
    (before : String → String → Bool) (events : List (Json N)) (k : String)
    → All (λ d. Distinct (keys d)) (records_of parse events)
    → (has (names_of (infer_fields parse percent before events)) k
        ≡ any (λ d. has (keys d) k) (records_of parse events))
      × All
          (λ f.
            f.pct
            ≡ share percent
                (count_all (records_of parse events))
                (having f.name (records_of parse events)))
          (infer_fields parse percent before events)
unfolding infer_fields get
infer_fields-share parse percent before events k h =
    let records = records_of parse events in
    (
      has-sorted_fields percent before (count_all records) (note_records records []) [] k
          ∙ ground (arith, has-note_records records [] k),
      sorted_fields-share percent before (count_all records) (λ k. having k records)
          (note_records records []) []
          (All-entries (λ k. having k records) (note_records records [])
            (note_records-Distinct records [] tt)
            (λ k there.
              note_records-count k records [] ∙ ground (arith, times_in-having k records h)))
          tt,
    )
