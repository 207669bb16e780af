-- ===== src/Canvas/Acyclic.antt =====
-- Connecting nodes on the canvas keeps the remap stages free of cycles.
use vortex_flow.Common.{
  String, Bool, List, [], ◌∷◌, ◌++◌, ◌≡◌, ◌⊎◌, inl, inr, sym, subst, true, false, ◌||◌, ◌&&◌, not,
  ◌==◌, has, has-uniq, has-append, uniq, Distinct, arith, Bool-cases, eq_iff, eq_of_test, ap, ◌∙◌,
}
use vortex_flow.Wiring.{FleetGraph}
use vortex_flow.Canvas.{
  Parsed, parse_node_id, Update, patch_stage_inputs, patch_sink_inputs, patch_route_sources,
  stage_inputs, current_inputs, wire, on_connect, tags_differ, is_sink, component_kind,
  src_is_upstream, set_stage_inputs,
}
use vortex_flow.Canvas.Cycle.{inputs_of, would_cycle}
use vortex_flow.Canvas.Cycle.Correct.{would_cycle_iff}
use vortex_flow.Canvas.Patched.{IsWired, ids, patched, ids-patched, Edge-patched, stage_inputs-Edge}
use vortex_flow.Canvas.Graphs.{Edge, Extends, extended-IsAcyclic}

module _ {V : Type 0} where
  -- The write of `onConnect` adds the edge from `t` to `s` at most.
  connect-Extends :
      (g : FleetGraph V) (t s : String)
      → Distinct (ids g.stages)
      → Extends
          (inputs_of g.stages)
          (inputs_of (patched t (uniq (stage_inputs g t ++ s ∷ [])) g.stages))
          t
          s
  connect-Extends g t s d a b edge =
      let current = stage_inputs g t in
      elim (Edge-patched t a b (uniq (current ++ s ∷ [])) g.stages edge) [
        | inl old ↦ inl old
        | inr (at, h) ↦ elim (Bool-cases (s == b)) [
          | inl e ↦ inr (at, sym (eq_of_test s b e))
          | inr e ↦
              let was : has current b ≡ true =
                ground (arith, has-uniq (current ++ s ∷ []) b, has-append current (s ∷ []) b) in
              inl (
                subst (λ k. Edge (inputs_of g.stages) k b) (sym at) (stage_inputs-Edge g t b d was))
        ]
      ]

  patch_stage_inputs-IsWired :
      (g : FleetGraph V) (t s : String)
      → IsWired g.stages
      → would_cycle g.stages s t ≡ false
      → IsWired (patch_stage_inputs t (uniq (stage_inputs g t ++ s ∷ [])) g).stages
  unfolding patch_stage_inputs
  patch_stage_inputs-IsWired g t s w clear = record {
    distinct = subst Distinct (sym (ids-patched t _ g.stages)) w.distinct;
    acyclic =
        extended-IsAcyclic (connect-Extends g t s w.distinct)
          (λ r. cc ((would_cycle_iff g.stages s t).1.1 r)) w.acyclic;
  }

  stages-wire :
      (accepts : Update → Bool) (g : FleetGraph V) (s t : Parsed) (next : List String)
      → ((wire accepts g s t next).graph.stages ≡ g.stages)
        ⊎ (((t.kind == "s") ≡ true)
            × ((wire accepts g s t next).graph.stages ≡ (patch_stage_inputs t.id next g).stages))
  unfolding wire patch_stage_inputs patch_sink_inputs patch_route_sources
  stages-wire accepts g s t next =
      elim (Bool-cases (t.kind == "c" && is_sink (component_kind g t.id))) [
        | inl c ↦ inl (ground arith)
        | inr c ↦ elim (Bool-cases (t.kind == "s")) [
          | inr other ↦ inl (ground arith)
          | inl stage ↦ elim (Bool-cases (src_is_upstream g s)) [
            | inr down ↦ inl (ground arith)
            | inl up ↦ elim (Bool-cases (accepts (set_stage_inputs t.id next))) [
              | inr refused ↦ inl (ground arith)
              | inl taken ↦ inr (stage, ground arith)
            ]
          ]
        ]
      ]

  current_inputs-stage :
      (g : FleetGraph V) (t : Parsed)
      → (t.kind == "s") ≡ true
      → current_inputs g t ≡ stage_inputs g t.id
  unfolding current_inputs
  current_inputs-stage g t h = ground (arith, eq_iff t.kind "c", eq_iff t.kind "s", tags_differ)

  -- Whatever edge is drawn and whatever the server answers, the stages of the snapshot keep
  -- distinct ids and stay free of cycles.
  pub on_connect-IsWired :
      (accepts : Update → Bool) (editable : Bool) (g : FleetGraph V) (source target : String)
      → IsWired g.stages
      → IsWired (on_connect accepts editable g source target).graph.stages
  unfolding on_connect
  on_connect-IsWired accepts editable g source target w =
      let s = parse_node_id source in
      let t = parse_node_id target in
      let current = current_inputs g t in
      let skip = not editable || source == "" || target == "" || source == target in
      elim (Bool-cases (skip || has current s.id || would_cycle g.stages s.id t.id)) [
        | inl e ↦
            let same : (on_connect accepts editable g source target).graph.stages ≡ g.stages =
              ground arith in
            subst IsWired (sym same) w
        | inr e ↦
            let next = uniq (current ++ s.id ∷ []) in
            let run : (on_connect accepts editable g source target).graph
                ≡ (wire accepts g s t next).graph =
              ground arith in
            elim (stages-wire accepts g s t next) [
              | inl same ↦ subst IsWired (sym (ap (λ x. x.stages) run ∙ same)) w
              | inr (stage, patch) ↦
                  let at : current ≡ stage_inputs g t.id = current_inputs-stage g t stage in
                  let kept = patch_stage_inputs-IsWired g t.id s.id w (ground arith) in
                  subst IsWired
                    (sym (
                      ap (λ x. x.stages) run
                      ∙ patch
                      ∙ ap (λ c. (patch_stage_inputs t.id (uniq (c ++ s.id ∷ [])) g).stages) at))
                    kept
            ]
      ]
