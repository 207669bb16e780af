-- ===== src/CatalogGen/Sorted.antt =====
-- The map from types to components, and the sorted list of its values: no type twice.
use vortex_flow.Common.{
  String, Bool, false, ◌==◌, ◌||◌, List, [], ◌∷◌, ◌≡◌, refl, sym, arith, eq_iff, Dict, keys, insert,
  has, All, Distinct, Bool-cases, inl, inr, subst, ap, ◌∙◌,
}
use vortex_flow.Catalog.{CatalogComponent, types_of}
use vortex_flow.CatalogGen.Build.{insert_sorted, sort_types}

module _ {V : Type 0} (k : String) (v : V) where
  pub has-insert :
      (d : Dict V) (j : String) → has (keys (insert k v d)) j ≡ (k == j || has (keys d) j)
  unfolding insert
  has-insert [] j = refl
  has-insert ((i, w) ∷ d) j = ground (arith, eq_iff i k, eq_iff k j, eq_iff i j, has-insert d j)

  pub Distinct-insert : (d : Dict V) → Distinct (keys d) → Distinct (keys (insert k v d))
  unfolding insert
  Distinct-insert [] h = (refl, tt)
  Distinct-insert ((i, w) ∷ d) (fresh, h) = elim (Bool-cases (i == k)) [
    | inl e ↦ rw e (fresh, h)
    | inr e ↦
        rw e (ground (arith, has-insert d i, eq_iff k i, eq_iff i k, fresh), Distinct-insert d h)
  ]

  pub All-insert :
      (P : String × V → Type 0) (d : Dict V) → All P d → P (k, v) → All P (insert k v d)
  unfolding insert
  All-insert P [] h p = (p, tt)
  All-insert P ((i, w) ∷ d) (q, h) p = elim (Bool-cases (i == k)) [
    | inl e ↦ rw e (subst (λ j. P (j, v)) (sym ((eq_iff i k).0 e)) p, h)
    | inr e ↦ rw e (q, All-insert P d h p)
  ]

module _ {N : Type 0} (before : String → String → Bool) where
  has-insert_sorted :
      (c : CatalogComponent N) (cs : List (CatalogComponent N)) (t : String)
      → has (types_of (insert_sorted before c cs)) t
        ≡ (c.component_type == t || has (types_of cs) t)
  unfolding insert_sorted
  has-insert_sorted c [] t = refl
  has-insert_sorted c (x ∷ cs) t = ground (arith, has-insert_sorted c cs t)

  Distinct-insert_sorted :
      (c : CatalogComponent N) (cs : List (CatalogComponent N))
      → Distinct (types_of cs)
      → has (types_of cs) c.component_type ≡ false
      → Distinct (types_of (insert_sorted before c cs))
  unfolding insert_sorted
  Distinct-insert_sorted c [] h fresh = (refl, tt)
  Distinct-insert_sorted c (x ∷ cs) (apart, h) fresh =
      elim (Bool-cases (before c.component_type x.component_type)) [
        | inl e ↦ rw e (fresh, (apart, h))
        | inr e ↦ rw e (
          ground (
            arith,
            has-insert_sorted c cs x.component_type,
            eq_iff c.component_type x.component_type,
            eq_iff x.component_type c.component_type,
            apart,
            fresh,
          ),
          Distinct-insert_sorted c cs h (ground (arith, fresh)),
        )
      ]

  All-insert_sorted :
      (P : CatalogComponent N → Type 0) (c : CatalogComponent N) (cs : List (CatalogComponent N))
      → P c
      → All P cs
      → All P (insert_sorted before c cs)
  unfolding insert_sorted
  All-insert_sorted P c [] p h = (p, tt)
  All-insert_sorted P c (x ∷ cs) p (q, h) =
      elim (Bool-cases (before c.component_type x.component_type)) [
        | inl e ↦ rw e (p, (q, h))
        | inr e ↦ rw e (q, All-insert_sorted P c cs p h)
      ]

  -- Each component stands under its type.
  abbrev pub IsKeyed : String × CatalogComponent N → Type 0
  IsKeyed (k, c) = c.component_type ≡ k

  -- No key of the map is the type of a component of the list.
  abbrev pub Apart : Dict (CatalogComponent N) → List (CatalogComponent N) → Type 0
  Apart d cs = All (λ e. has (types_of cs) e.0 ≡ false) d

  Apart-insert_sorted :
      (k : String) (c : CatalogComponent N) (cs : List (CatalogComponent N))
      (d : Dict (CatalogComponent N))
      → c.component_type ≡ k
      → has (keys d) k ≡ false
      → Apart d cs
      → Apart d (insert_sorted before c cs)
  Apart-insert_sorted k c cs [] same fresh h = tt
  Apart-insert_sorted k c cs ((j, x) ∷ d) same fresh (a, h) = (
    ground (arith, has-insert_sorted c cs j, eq_iff c.component_type j, eq_iff j k, same, a, fresh),
    Apart-insert_sorted k c cs d same (ground (arith, fresh)) h,
  )

  pub sort_types-Distinct :
      (cs : List (CatalogComponent N)) (d : Dict (CatalogComponent N))
      → Distinct (types_of cs)
      → Distinct (keys d)
      → All IsKeyed d
      → Apart d cs
      → Distinct (types_of (sort_types before cs d))
  unfolding sort_types
  sort_types-Distinct cs [] h distinct keyed apart = h
  sort_types-Distinct cs ((k, c) ∷ d) h (fresh, distinct) (same, keyed) (a, apart) =
      sort_types-Distinct (insert_sorted before c cs) d
        (Distinct-insert_sorted c cs h (ap (λ t. has (types_of cs) t) same ∙ a)) distinct keyed
        (Apart-insert_sorted k c cs d same fresh apart)

  pub sort_types-All :
      (P : CatalogComponent N → Type 0) (cs : List (CatalogComponent N))
      (d : Dict (CatalogComponent N))
      → All P cs
      → All (λ e. P e.1) d
      → All P (sort_types before cs d)
  unfolding sort_types
  sort_types-All P cs [] h k = h
  sort_types-All P cs ((j, c) ∷ d) h (p, k) =
      sort_types-All P (insert_sorted before c cs) d (All-insert_sorted P c cs p h) k
