-- ===== src/Canvas/Unwire/Inputs.antt =====
-- The inputs of a node after those of another, or its own, are patched.
use mathlib.Core.Option
use vortex_flow.Common.{
  String, Option, none, some, List, [], ◌∷◌, map, ◌≡◌, inl, inr, refl, ap, ◌∙◌, subst, ◌==◌,
  if◌then◌else◌, find, find-map, arith, eq_iff, eq_refl, Bool-cases, eq_of_test,
}
use vortex_flow.Wiring.{FleetGraph}
use vortex_flow.Canvas.{
  patch_stage_inputs, patch_sink_inputs, patch_route_sources, stage_inputs, component_inputs,
  route_sources, inputs_or,
}
use vortex_flow.Canvas.Unwire.{without}

-- The inputs of a node that was found, and none of a node that was not.
abbrev pub found_or {ℓ} : {A : Type ℓ} → Option A → List String → List String
found_or none next = []
found_or (some a) next = next

without_found {ℓ} :
    {A : Type ℓ} (inputs : A → List String) (o : Option A) (s : String)
    → found_or o (without s (inputs_or inputs o)) ≡ without s (inputs_or inputs o)
without_found inputs none s = refl
without_found inputs (some a) s = refl

module _ {ℓ} {A : Type ℓ} (key : A → String) (inputs : A → List String) (put : A → A)
    (next : List String) (put_inputs : (x : A) → inputs (put x) ≡ next)
    (put_key : (x : A) → key (put x) ≡ key x) where
  inputs_or-patched :
      (t p : String) (xs : List A)
      → inputs_or inputs (find (λ x. key x == p) (map (λ x. if key x == t then put x else x) xs))
        ≡ (if t == p
            then found_or (find (λ x. key x == p) xs) next
            else inputs_or inputs (find (λ x. key x == p) xs))
  inputs_or-patched t p [] = ground arith
  inputs_or-patched t p (x ∷ xs) = ground (
    arith,
    inputs_or-patched t p xs,
    put_inputs x,
    put_key x,
    eq_iff (key x) t,
    eq_iff (key x) p,
    eq_iff t p,
    eq_iff (key (put x)) p,
  )

-- Here the inputs that are put are those that were there, one id taken out.
module _ {ℓ} {A : Type ℓ} (key : A → String) (inputs : A → List String) where
  found_or-without :
      (t p s : String) (xs : List A) (other : List String)
      → (if t == p
          then found_or
              (find (λ x. key x == p) xs)
              (without s (inputs_or inputs (find (λ x. key x == t) xs)))
          else other)
        ≡ (if t == p then without s (inputs_or inputs (find (λ x. key x == t) xs)) else other)
  found_or-without t p s xs other = elim (Bool-cases (t == p)) [
    | inl e ↦ rw e (
        subst
          (λ k.
            found_or (find (λ x. key x == k) xs)
              (without s (inputs_or inputs (find (λ x. key x == t) xs)))
            ≡ without s (inputs_or inputs (find (λ x. key x == t) xs)))
          (eq_of_test t p e) (without_found inputs (find (λ x. key x == t) xs) s))
    | inr e ↦ rw e
  ]

module _ {V : Type 0} (t p : String) (next : List String) (g : FleetGraph V) where
  pub stage_inputs-patch :
      stage_inputs (patch_stage_inputs t next g) p
      ≡ (if t == p then found_or (find (λ s. s.id == p) g.stages) next else stage_inputs g p)
  unfolding stage_inputs patch_stage_inputs
  stage_inputs-patch =
      inputs_or-patched (λ s. s.id) (λ s. s.inputs) (λ s. record s { inputs = next }) next
        (λ s. refl) (λ s. refl) t p g.stages

  component_inputs-patch : component_inputs (patch_sink_inputs t next g) p ≡ (
      if t == p then found_or (find (λ c. c.id == p) g.components) next else component_inputs g p)
  unfolding component_inputs patch_sink_inputs
  component_inputs-patch =
      inputs_or-patched (λ c. c.id) (λ c. c.inputs) (λ c. record c { inputs = next }) next
        (λ c. refl) (λ c. refl) t p g.components

  route_sources-patch :
      route_sources (patch_route_sources t next g) p
      ≡ (if t == p then found_or (find (λ r. r.id == p) g.routes) next else route_sources g p)
  unfolding route_sources patch_route_sources
  route_sources-patch =
      inputs_or-patched (λ r. r.id) (λ r. r.source_ids) (λ r. record r { source_ids = next }) next
        (λ r. refl) (λ r. refl) t p g.routes

module _ {V : Type 0} where
  pub stage_inputs-unwired :
      (g : FleetGraph V) (t p s : String)
      → stage_inputs (patch_stage_inputs t (without s (stage_inputs g t)) g) p
        ≡ (if t == p then without s (stage_inputs g t) else stage_inputs g p)
  stage_inputs-unwired g t p s =
      stage_inputs-patch t p (without s (stage_inputs g t)) g
      ∙ (unfold stage_inputs in
          found_or-without (λ x. x.id) (λ x. x.inputs) t p s g.stages (stage_inputs g p))

  pub component_inputs-unwired :
      (g : FleetGraph V) (t p s : String)
      → component_inputs (patch_sink_inputs t (without s (component_inputs g t)) g) p
        ≡ (if t == p then without s (component_inputs g t) else component_inputs g p)
  component_inputs-unwired g t p s =
      component_inputs-patch t p (without s (component_inputs g t)) g
      ∙ (unfold component_inputs in
          found_or-without (λ x. x.id) (λ x. x.inputs) t p s g.components (component_inputs g p))

  pub route_sources-unwired :
      (g : FleetGraph V) (t p s : String)
      → route_sources (patch_route_sources t (without s (route_sources g t)) g) p
        ≡ (if t == p then without s (route_sources g t) else route_sources g p)
  route_sources-unwired g t p s =
      route_sources-patch t p (without s (route_sources g t)) g
      ∙ (unfold route_sources in
          found_or-without (λ x. x.id) (λ x. x.source_ids) t p s g.routes (route_sources g p))

  -- A patch of one kind leaves the other kinds alone.
  pub patches_apart :
      (t p : String) (next : List String) (g : FleetGraph V)
      → (component_inputs (patch_stage_inputs t next g) p ≡ component_inputs g p)
        × (component_inputs (patch_route_sources t next g) p ≡ component_inputs g p)
        × (stage_inputs (patch_sink_inputs t next g) p ≡ stage_inputs g p)
        × (stage_inputs (patch_route_sources t next g) p ≡ stage_inputs g p)
        × (route_sources (patch_sink_inputs t next g) p ≡ route_sources g p)
        × (route_sources (patch_stage_inputs t next g) p ≡ route_sources g p)
  unfolding component_inputs stage_inputs route_sources patch_sink_inputs patch_stage_inputs
      patch_route_sources
  patches_apart t p next g = (refl, refl, refl, refl, refl, refl)

found_or-map {ℓ} :
    {A : Type ℓ} (f : A → A) (o : Option A) (next : List String)
    → found_or (Option.map f o) next ≡ found_or o next
found_or-map f none next = refl
found_or-map f (some a) next = refl

module _ {V : Type 0} (t s : String) (first : List String) (g : FleetGraph V) where
  found_after_patch :
      (next : List String)
      → found_or (find (λ x. x.id == t) (patch_stage_inputs t first g).stages) next
        ≡ found_or (find (λ x. x.id == t) g.stages) next
  unfolding patch_stage_inputs
  found_after_patch next =
      ap (λ o. found_or o next)
        (find-map (λ x. x.id == t) (λ x. if x.id == t then record x { inputs = first } else x)
          (λ x. ground arith) g.stages)
      ∙ found_or-map (λ x. if x.id == t then record x { inputs = first } else x) _ next

  -- A second patch, computed from the inputs before the first, undoes the first.
  pub stage_inputs-patch_twice :
      stage_inputs
        (patch_stage_inputs t (without s (stage_inputs g t)) (patch_stage_inputs t first g))
        t
      ≡ without s (stage_inputs g t)
  stage_inputs-patch_twice =
      let next = without s (stage_inputs g t) in
      stage_inputs-patch t t next (patch_stage_inputs t first g)
      ∙ rw eq_refl (
          found_after_patch next
          ∙ (unfold stage_inputs in
              without_found (λ x. x.inputs) (find (λ x. x.id == t) g.stages) s))
