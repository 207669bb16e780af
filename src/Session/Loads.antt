-- ===== src/Session/Loads.antt =====
-- What the catalog of the session holds after any run of loads.
use vortex_flow.Common.{
  String, Bool, true, false, Option, none, List, [], ◌∷◌, ◌++◌, ◌≡◌, refl, ap, ◌∙◌,
}
use vortex_flow.Catalog.{build_catalog}
use vortex_flow.Session.{
  Sides, CatalogState, schema, failed, LoadEvent, starts, arrives, version_of, first_state,
  load_step, load_run,
}

module _ {N : Type 0} where
  -- The catalog and the flag `live` go by the last answer, the version by the last that is no error.
  abbrev pub shown : Sides N → Sides N → List (LoadEvent N) → Sides N × Bool → Sides N × Bool
  shown curated bundled [] now = now
  shown curated bundled (starts ∷ es) now = shown curated bundled es now
  shown curated bundled (arrives (schema header gen) ∷ es) now =
      shown curated bundled es (build_catalog curated gen, true)
  shown curated bundled (arrives failed ∷ es) now = shown curated bundled es (bundled, false)

  abbrev pub last_version : List (LoadEvent N) → Option String → Option String
  last_version [] now = now
  last_version (starts ∷ es) now = last_version es now
  last_version (arrives (schema header gen) ∷ es) now = last_version es (version_of header)
  last_version (arrives failed ∷ es) now = last_version es now

module _ {N : Type 0} (curated bundled : Sides N) where
  load_run-from :
      (s : CatalogState N) (es : List (LoadEvent N))
      → ((load_run curated bundled s es).catalog ≡ (shown curated bundled es (s.catalog, s.live)).0)
        × ((load_run curated bundled s es).live ≡ (shown curated bundled es (s.catalog, s.live)).1)
        × ((load_run curated bundled s es).vector_version ≡ last_version es s.vector_version)
  unfolding load_run load_step
  load_run-from s [] = (refl, refl, refl)
  load_run-from s (starts ∷ es) = load_run-from (load_step curated bundled s starts) es
  load_run-from s (arrives (schema header gen) ∷ es) =
      load_run-from (load_step curated bundled s (arrives (schema header gen))) es
  load_run-from s (arrives failed ∷ es) =
      load_run-from (load_step curated bundled s (arrives failed)) es

  -- Where the last answer to a load is an error, the bundled catalog is shown and is not marked as
  -- live, but the version is still the one that the answers before it left.
  pub load_run_failed :
      (es : List (LoadEvent N))
      → let s =
          load_run curated bundled (first_state curated bundled) (es ++ (arrives failed ∷ [])) in
        (s.catalog ≡ bundled) × (s.live ≡ false) × (s.vector_version ≡ last_version es none)
  load_run_failed es =
      let (c, l, v) = load_run-from (first_state curated bundled) (es ++ (arrives failed ∷ [])) in
      (
        c ∙ ap (λ p. p.0) (shown-failed es (bundled, false)),
        l ∙ ap (λ p. p.1) (shown-failed es (bundled, false)),
        v ∙ version-failed es none,
      )
    where
      shown-failed :
          (es : List (LoadEvent N)) (now : Sides N × Bool)
          → shown curated bundled (es ++ (arrives failed ∷ [])) now ≡ (bundled, false)
      shown-failed [] now = refl
      shown-failed (starts ∷ es) now = shown-failed es now
      shown-failed (arrives (schema header gen) ∷ es) now =
          shown-failed es (build_catalog curated gen, true)
      shown-failed (arrives failed ∷ es) now = shown-failed es (bundled, false)

      version-failed :
          (es : List (LoadEvent N)) (now : Option String)
          → last_version (es ++ (arrives failed ∷ [])) now ≡ last_version es now
      version-failed [] now = refl
      version-failed (starts ∷ es) now = version-failed es now
      version-failed (arrives (schema header gen) ∷ es) now = version-failed es (version_of header)
      version-failed (arrives failed ∷ es) now = version-failed es now
