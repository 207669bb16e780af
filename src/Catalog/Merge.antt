-- ===== src/Catalog/Merge.antt =====
-- The hybrid catalog: where both have a type, the curated entry is found.
use vortex_flow.Common.{
  String, true, false, Option, none, some, List, [], ◌∷◌, ◌++◌, map, not, ◌≡◌, refl, if◌then◌else◌,
  ◌==◌, has, find, filter, Bool-cases, inl, inr, arith, eq_iff, eq_of_test,
}
use vortex_flow.Catalog.{CatalogComponent, types_of, mark_generated, merge_catalog}

module _ {N : Type 0} where
  abbrev pub find_type : String → List (CatalogComponent N) → Option (CatalogComponent N)
  find_type t cs = find (λ c. c.component_type == t) cs

  abbrev pub marked : Option (CatalogComponent N) → Option (CatalogComponent N)
  marked none = none
  marked (some c) = some (mark_generated c)

  find_type-filter :
      (known : List String) (t : String) (cs : List (CatalogComponent N))
      → find_type t (map mark_generated (filter (λ c. not (has known c.component_type)) cs))
        ≡ (if has known t then none else marked (find_type t cs))
  find_type-filter known t [] = elim (Bool-cases (has known t)) [
    | inl e ↦ rw e refl
    | inr e ↦ rw e refl
  ]
  find_type-filter known t (c ∷ cs) =
      let ih = find_type-filter known t cs in
      elim (Bool-cases (has known c.component_type)) [
        | inl k ↦ elim (Bool-cases (c.component_type == t)) [
          | inl e ↦
              let found : has known t ≡ true = rw (← eq_of_test c.component_type t e) k in
              rw (k, ih, found) refl
          | inr e ↦ rw (k, e) ih
        ]
        | inr k ↦ elim (Bool-cases (c.component_type == t)) [
          | inl e ↦
              let fresh : has known t ≡ false = rw (← eq_of_test c.component_type t e) k in
              rw (k, e, fresh) refl
          | inr e ↦ rw (k, e) ih
        ]
      ]

  find_type-append :
      (t : String) (cs ds : List (CatalogComponent N))
      → find_type t (cs ++ ds) ≡ (if has (types_of cs) t then find_type t cs else find_type t ds)
  find_type-append t [] ds = refl
  find_type-append t (c ∷ cs) ds =
      ground (arith, eq_iff c.component_type t, find_type-append t cs ds)

  -- A type is found in the hybrid catalog where it is curated, as the curated entry, or else where it
  -- is generated, as the generated entry with its mark.
  pub find_type-merge_catalog :
      (curated generated : List (CatalogComponent N)) (t : String)
      → find_type t (merge_catalog curated generated)
        ≡ (if has (types_of curated) t then find_type t curated else marked (find_type t generated))
  unfolding merge_catalog
  find_type-merge_catalog curated generated t = ground (
    arith,
    find_type-append t curated (
        map mark_generated (filter (λ c. not (has (types_of curated) c.component_type)) generated)),
    find_type-filter (types_of curated) t generated,
  )
