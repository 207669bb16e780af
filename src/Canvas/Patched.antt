-- ===== src/Canvas/Patched.antt =====
-- The graph of the remap stages before and after the inputs of one stage are patched.
use vortex_flow.Common.{
  String, Option, some, none, List, [], ◌∷◌, map, ◌≡◌, ◌⊎◌, inl, inr, refl, sym, subst, true, false,
  ◌==◌, if◌then◌else◌, has, find, Distinct, get_last, get-map_of, arith, Bool-cases, Option-cases,
  eq_iff, eq_of_test, ◌∙◌,
}
use vortex_flow.Types.{TransformStage}
use vortex_flow.Wiring.{FleetGraph}
use vortex_flow.Canvas.{stage_inputs}
use vortex_flow.Canvas.Cycle.{inputs_of}
use vortex_flow.Canvas.Graphs.{Edge, IsAcyclic}

abbrev pub ids : List TransformStage → List String
ids stages = map (λ s. s.id) stages

abbrev pub pairs : List TransformStage → List (String × List String)
pairs stages = map (λ s. (s.id, s.inputs)) stages

-- The stages are keyed by their ids, and none reads itself through others.
pub record IsWired (stages : List TransformStage) : Type 0 where
  pub distinct : Distinct (ids stages)
  pub acyclic : IsAcyclic (inputs_of stages)

abbrev pub patched : String → List String → List TransformStage → List TransformStage
patched t next stages = map (λ s. if s.id == t then record s { inputs = next } else s) stages

pub ids-patched :
    (t : String) (next : List String) (stages : List TransformStage)
    → ids (patched t next stages) ≡ ids stages
ids-patched t next [] = refl
ids-patched t next (s ∷ stages) = ground (arith, ids-patched t next stages)

abbrev replaced : List String → Option (List String) → Option (List String)
replaced next none = none
replaced next (some ins) = some next

-- The inputs of another stage stay, and the patched one has the new ones.
get_last-patched :
    (t a : String) (next : List String) (stages : List TransformStage)
    → get_last a (pairs (patched t next stages))
      ≡ (if t == a then replaced next (get_last a (pairs stages)) else get_last a (pairs stages))
get_last-patched t a next [] = ground arith
get_last-patched t a next (s ∷ stages) =
    ground (arith, get_last-patched t a next stages, eq_iff s.id t, eq_iff s.id a, eq_iff t a)

get_last-none :
    (t : String) (stages : List TransformStage)
    → has (ids stages) t ≡ false
    → get_last t (pairs stages) ≡ none
get_last-none t [] h = refl
get_last-none t (s ∷ stages) h = ground (arith, get_last-none t stages)

-- `find` looks at the first stage with the id, the map keeps the last: with distinct ids they agree.
get_last-find :
    (t : String) (stages : List TransformStage) {s : TransformStage}
    → Distinct (ids stages)
    → find (λ x. x.id == t) stages ≡ some s
    → get_last t (pairs stages) ≡ some s.inputs
get_last-find t [] d h = cc
get_last-find t (x ∷ stages) {s} d h = elim (Bool-cases (x.id == t)) [
  | inl e ↦
      let fresh : has (ids stages) t ≡ false =
        subst (λ k. has (ids stages) k ≡ false) (eq_of_test x.id t e) d.0 in
      ground (arith, get_last-none t stages fresh)
  | inr e ↦ ground (arith, get_last-find t stages {s = s} d.1 (ground arith))
]

Edge-get_last :
    (a b : String) (stages : List TransformStage)
    → Edge (inputs_of stages) a b
    → (ins : List String) × (get_last a (pairs stages) ≡ some ins) × (has ins b ≡ true)
Edge-get_last a b stages (ins, g, h) = (ins, sym (get-map_of a (pairs stages)) ∙ g, h)

get_last-Edge :
    (a b : String) (stages : List TransformStage) (ins : List String)
    → get_last a (pairs stages) ≡ some ins
    → has ins b ≡ true
    → Edge (inputs_of stages) a b
get_last-Edge a b stages ins g h = (ins, get-map_of a (pairs stages) ∙ g, h)

-- After the patch an edge is an old one, or leads from the patched stage to one of its new inputs.
pub Edge-patched :
    (t a b : String) (next : List String) (stages : List TransformStage)
    → Edge (inputs_of (patched t next stages)) a b
    → Edge (inputs_of stages) a b ⊎ ((a ≡ t) × (has next b ≡ true))
Edge-patched t a b next stages edge =
    let (ins, g, h) = Edge-get_last a b (patched t next stages) edge in
    elim (Option-cases (get_last a (pairs stages))) [
      | inl e ↦ ground (arith, get_last-patched t a next stages)
      | inr (old, e) ↦ elim (Bool-cases (t == a)) [
        | inl same ↦
            let at : a ≡ t = sym (eq_of_test t a same) in
            let new : ins ≡ next = ground (arith, get_last-patched t a next stages) in
            inr (at, rw (← new) h)
        | inr other ↦
            let kept : get_last a (pairs stages) ≡ some ins =
              ground (arith, get_last-patched t a next stages) in
            inl (get_last-Edge a b stages ins kept h)
      ]
    ]

module _ {V : Type 0} where
  -- An input that `find` shows is an edge.
  pub stage_inputs-Edge :
      (g : FleetGraph V) (t b : String)
      → Distinct (ids g.stages)
      → has (stage_inputs g t) b ≡ true
      → Edge (inputs_of g.stages) t b
  unfolding stage_inputs
  stage_inputs-Edge g t b d h = elim (Option-cases (find (λ s. s.id == t) g.stages)) [
    | inl e ↦ ground arith
    | inr (s, e) ↦ get_last-Edge t b g.stages s.inputs (get_last-find t g.stages d e) (ground arith)
  ]
