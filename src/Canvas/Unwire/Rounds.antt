-- ===== src/Canvas/Unwire/Rounds.antt =====
-- What the rounds of `onEdgesDelete` leave of the inputs of a stage.
use vortex_flow.Common.{
  String, Bool, false, Option, none, some, List, [], ◌∷◌, ◌≡◌, ◌⊎◌, refl, ap, ◌∙◌, subst, inl, inr,
  ◌&&◌, ◌==◌, if◌then◌else◌, has, find, arith, eq_iff, eq_refl, Bool-cases, eq_of_test,
}
use vortex_flow.Types.{TransformStage}
use vortex_flow.Wiring.{FleetGraph}
use vortex_flow.Canvas.{
  parse_node_id, Update, set_stage_inputs, patch_stage_inputs, patch_sink_inputs,
  patch_route_sources, stage_inputs, is_sink, component_kind, component_inputs, route_sources,
  tags_differ, inputs_or,
}
use vortex_flow.Canvas.Patched.{ids, patched, ids-patched}
use vortex_flow.Canvas.Unwire.Inputs.{found_or, stage_inputs-patch, patches_apart}
use vortex_flow.Canvas.Unwire.{CanvasEdge, without, unwire, unwire_all}

found_or-ids :
    (p : String) (next : List String) (stages : List TransformStage)
    → found_or (find (λ s. s.id == p) stages) next ≡ (if has (ids stages) p then next else [])
found_or-ids p next [] = refl
found_or-ids p next (s ∷ stages) = ground (arith, found_or-ids p next stages)

inputs_or-ids :
    (p : String) (stages : List TransformStage)
    → has (ids stages) p ≡ false
    → inputs_or (λ s. s.inputs) (find (λ s. s.id == p) stages) ≡ []
inputs_or-ids p [] h = refl
inputs_or-ids p (s ∷ stages) h = ground (arith, inputs_or-ids p stages)

-- Whether an id is the one that is taken out, if any.
abbrev pub is_left_out : Option String → String → Bool
is_left_out none b = false
is_left_out (some s) b = b == s

module _ {V : Type 0} where
  -- The edge leads to the stage `k`, and the server takes the write that leaves its source out.
  abbrev pub is_taken : (Update → Bool) → FleetGraph V → String → CanvasEdge → Bool
  is_taken accepts g k e =
      let s = parse_node_id e.source in
      let t = parse_node_id e.target in
      (t.kind == "s")
      && ((t.id == k) && accepts (set_stage_inputs k (without s.id (stage_inputs g k))))

  -- The source of the last edge into the stage `k` whose write the server takes.
  abbrev pub last_taken : (Update → Bool) → FleetGraph V → String → List CanvasEdge → Option String
  last_taken accepts g k [] = none
  last_taken accepts g k (e ∷ es) = elim (last_taken accepts g k es) [
    | some s ↦ some s
    | none ↦ if is_taken accepts g k e then some (parse_node_id e.source).id else none
  ]

  -- A stage that is missing has no inputs, before and after.
  without-ids :
      (snap : FleetGraph V) (p s : String)
      → (if has (ids snap.stages) p then without s (stage_inputs snap p) else [])
        ≡ without s (stage_inputs snap p)
  unfolding stage_inputs
  without-ids snap p s = elim (Bool-cases (has (ids snap.stages) p)) [
    | inl e ↦ rw e refl
    | inr e ↦ rw (e, inputs_or-ids p snap.stages e) refl
  ]

  stage_inputs-patched :
      (snap live : FleetGraph V) (t p s : String)
      → ids live.stages ≡ ids snap.stages
      → stage_inputs (patch_stage_inputs t (without s (stage_inputs snap t)) live) p
        ≡ (if t == p then without s (stage_inputs snap p) else stage_inputs live p)
  stage_inputs-patched snap live t p s same =
      stage_inputs-patch t p (without s (stage_inputs snap t)) live ∙ elim (Bool-cases (t == p)) [
        | inr e ↦ rw e refl
        | inl e ↦ rw e (
            found_or-ids p (without s (stage_inputs snap t)) live.stages
            ∙ rw (same, eq_of_test t p e) (without-ids snap p s))
      ]

  -- One round: the write of the edge counts, or the inputs stay as they are.
  stage_inputs-unwire :
      (accepts : Update → Bool) (snap live : FleetGraph V) (e : CanvasEdge) (k : String)
      → ids live.stages ≡ ids snap.stages
      → stage_inputs (unwire accepts snap live e).graph k ≡ (
          if is_taken accepts snap k e
          then without (parse_node_id e.source).id (stage_inputs snap k)
          else stage_inputs live k)
  unfolding unwire
  stage_inputs-unwire accepts snap live e k same =
      let s = parse_node_id e.source in
      let t = parse_node_id e.target in
      let of_sink = patches_apart t.id k (without s.id (component_inputs snap t.id)) live in
      let of_route = patches_apart t.id k (without s.id (route_sources snap t.id)) live in
      elim (Bool-cases (t.kind == "s")) [
        | inr other ↦ ground (arith, of_sink.2, of_route.3)
        | inl stage ↦ elim (Bool-cases (t.id == k)) [
          | inl at ↦
              subst
                (λ k. stage_inputs (unwire accepts snap live e).graph k ≡ (
                  if is_taken accepts snap k e
                  then without s.id (stage_inputs snap k)
                  else stage_inputs live k))
                (eq_of_test t.id k at)
                (ground (
                  arith,
                  stage_inputs-patched snap live t.id t.id s.id same,
                  eq_refl t.id,
                  eq_iff t.kind "c",
                  eq_iff t.kind "s",
                  tags_differ,
                ))
          | inr off ↦ ground (
            arith,
            stage_inputs-patched snap live t.id k s.id same,
            eq_iff t.kind "c",
            eq_iff t.kind "s",
            tags_differ,
          )
        ]
      ]

  abbrev pub next_inputs : FleetGraph V → String → String → List String
  next_inputs snap t s = without s (stage_inputs snap t)

  pub stages-unwire :
      (accepts : Update → Bool) (snap live : FleetGraph V) (edge : CanvasEdge)
      → ((unwire accepts snap live edge).graph.stages ≡ live.stages)
        ⊎ ((t s : String) × ((unwire accepts snap live edge).graph.stages
              ≡ patched t (next_inputs snap t s) live.stages))
  unfolding unwire patch_stage_inputs patch_sink_inputs patch_route_sources
  stages-unwire accepts snap live edge =
      let s = parse_node_id edge.source in
      let t = parse_node_id edge.target in
      elim (Bool-cases (t.kind == "c" && is_sink (component_kind snap t.id))) [
        | inl c ↦ inl (ground arith)
        | inr c ↦ elim (Bool-cases (t.kind == "s")) [
          | inr other ↦ inl (ground arith)
          | inl stage ↦
              elim (Bool-cases (accepts (set_stage_inputs t.id (next_inputs snap t.id s.id)))) [
                | inr refused ↦ inl (ground arith)
                | inl taken ↦ inr (t.id, s.id, ground arith)
              ]
        ]
      ]

  ids-unwire :
      (accepts : Update → Bool) (snap live : FleetGraph V) (e : CanvasEdge)
      → ids (unwire accepts snap live e).graph.stages ≡ ids live.stages
  ids-unwire accepts snap live e = elim (stages-unwire accepts snap live e) [
    | inl same ↦ ap ids same
    | inr (t, s, same) ↦ ap ids same ∙ ids-patched t _ live.stages
  ]

  -- The inputs of a stage after an edge is taken out, or as they were.
  abbrev pub inputs_left : FleetGraph V → FleetGraph V → String → Option String → List String
  inputs_left snap live k none = stage_inputs live k
  inputs_left snap live k (some s) = without s (stage_inputs snap k)

  pub stage_inputs-unwire_all :
      (accepts : Update → Bool) (snap live : FleetGraph V) (edges : List CanvasEdge) (k : String)
      → ids live.stages ≡ ids snap.stages
      → stage_inputs (unwire_all accepts snap live edges).graph k
        ≡ inputs_left snap live k (last_taken accepts snap k edges)
  unfolding unwire_all
  stage_inputs-unwire_all accepts snap live [] k same = refl
  stage_inputs-unwire_all accepts snap live (e ∷ es) k same =
      let next = (unwire accepts snap live e).graph in
      let rest =
        stage_inputs-unwire_all accepts snap next es k (ids-unwire accepts snap live e ∙ same) in
      rest ∙ later (last_taken accepts snap k es)
    where
      later :
          (o : Option String)
          → inputs_left snap (unwire accepts snap live e).graph k o
            ≡ inputs_left snap live k (elim o [
              | some s ↦ some s
              | none ↦ if is_taken accepts snap k e then some (parse_node_id e.source).id else none
            ])
      later (some s) = refl
      later none =
          stage_inputs-unwire accepts snap live e k same
          ∙ elim (Bool-cases (is_taken accepts snap k e)) [ inl h ↦ rw h refl | inr h ↦ rw h refl ]
