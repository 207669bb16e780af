-- ===== src/Canvas/Unwire/Laws.antt =====
-- What deleting edges does to the inputs of every node.
use vortex_flow.Common.{
  String, Bool, false, List, ◌≡◌, ◌⊎◌, inl, inr, ap, ◌∙◌, ◌||◌, ◌&&◌, not, ◌==◌, if◌then◌else◌,
  arith, eq_iff,
}
use vortex_flow.Wiring.{FleetGraph}
use vortex_flow.Canvas.{
  Parsed, parse_node_id, Update, patch_stage_inputs, patch_sink_inputs, patch_route_sources,
  stage_inputs, component_inputs, route_sources, current_inputs, is_sink, component_kind,
  tags_differ,
}
use vortex_flow.Canvas.Unwire.Inputs.{
  stage_inputs-unwired, component_inputs-unwired, route_sources-unwired, patches_apart,
}
use vortex_flow.Canvas.Unwire.{CanvasEdge, without, unwire, unwire_edge}

-- The kinds of node that the canvas builds.
abbrev pub IsTag : String → Type 0
IsTag k = (k ≡ "c") ⊎ (k ≡ "s") ⊎ (k ≡ "r")

module _ {V : Type 0} where
  -- Whether the canvas has a write for edges into the node.
  abbrev pub is_writable : FleetGraph V → Parsed → Bool
  is_writable g t = not (t.kind == "c") || is_sink (component_kind g t.id)

  -- The snapshot after a write that the server takes.
  abbrev pub unwired_graph : FleetGraph V → FleetGraph V → Parsed → Parsed → FleetGraph V
  unwired_graph snap live s t =
      if t.kind == "c" && is_sink (component_kind snap t.id)
      then patch_sink_inputs t.id (without s.id (component_inputs snap t.id)) live
      else if t.kind == "s"
      then patch_stage_inputs t.id (without s.id (stage_inputs snap t.id)) live
      else if t.kind == "r"
      then patch_route_sources t.id (without s.id (route_sources snap t.id)) live
      else live

  pub graph-unwire :
      (accepts : Update → Bool) (snap live : FleetGraph V) (edge : CanvasEdge)
      → (unwire accepts snap live edge).failed ≡ false
      → (unwire accepts snap live edge).graph
        ≡ unwired_graph snap live (parse_node_id edge.source) (parse_node_id edge.target)
  unfolding unwire
  graph-unwire accepts snap live edge ok = ground arith

  -- The inputs of `p` once the edge from `s` to `t` is gone.
  pub unwired : FleetGraph V → Parsed → Parsed → Parsed → List String
  unwired g s t p =
      if p.kind == t.kind && p.id == t.id && is_writable g t
      then without s.id (current_inputs g t)
      else current_inputs g p

  current_inputs-unwired_graph :
      (g : FleetGraph V) (s t p : Parsed)
      → IsTag p.kind
      → current_inputs (unwired_graph g g s t) p ≡ unwired g s t p
  unfolding current_inputs unwired
  current_inputs-unwired_graph g s t p (inl k) = ground (
    arith,
    patches_apart t.id p.id (without s.id (component_inputs g t.id)) g,
    patches_apart t.id p.id (without s.id (stage_inputs g t.id)) g,
    patches_apart t.id p.id (without s.id (route_sources g t.id)) g,
    component_inputs-unwired g t.id p.id s.id,
    eq_iff t.kind "c",
    eq_iff t.kind "s",
    eq_iff t.kind "r",
    eq_iff p.kind t.kind,
    eq_iff p.id t.id,
    eq_iff t.id p.id,
    eq_iff p.kind "c",
    eq_iff p.kind "s",
    tags_differ,
  )
  current_inputs-unwired_graph g s t p (inr (inl k)) = ground (
    arith,
    patches_apart t.id p.id (without s.id (component_inputs g t.id)) g,
    patches_apart t.id p.id (without s.id (stage_inputs g t.id)) g,
    patches_apart t.id p.id (without s.id (route_sources g t.id)) g,
    stage_inputs-unwired g t.id p.id s.id,
    eq_iff t.kind "c",
    eq_iff t.kind "s",
    eq_iff t.kind "r",
    eq_iff p.kind t.kind,
    eq_iff p.id t.id,
    eq_iff t.id p.id,
    eq_iff p.kind "c",
    eq_iff p.kind "s",
    tags_differ,
  )
  current_inputs-unwired_graph g s t p (inr (inr k)) = ground (
    arith,
    patches_apart t.id p.id (without s.id (component_inputs g t.id)) g,
    patches_apart t.id p.id (without s.id (stage_inputs g t.id)) g,
    patches_apart t.id p.id (without s.id (route_sources g t.id)) g,
    route_sources-unwired g t.id p.id s.id,
    eq_iff t.kind "c",
    eq_iff t.kind "s",
    eq_iff t.kind "r",
    eq_iff p.kind t.kind,
    eq_iff p.id t.id,
    eq_iff t.id p.id,
    eq_iff p.kind "c",
    eq_iff p.kind "s",
    tags_differ,
  )

  -- A delete from the edge menu that the server takes removes the source from the inputs of the
  -- target and leaves the inputs of every other node as they were.
  pub current_inputs-unwire_edge :
      (accepts : Update → Bool) (g : FleetGraph V) (edge : CanvasEdge) (p : Parsed)
      → IsTag p.kind
      → (unwire accepts g g edge).failed ≡ false
      → current_inputs (unwire_edge accepts g edge).graph p
        ≡ unwired g (parse_node_id edge.source) (parse_node_id edge.target) p
  unfolding unwire_edge
  current_inputs-unwire_edge accepts g edge p k ok =
      ap (λ x. current_inputs x p) (graph-unwire accepts g g edge ok)
      ∙ current_inputs-unwired_graph g (parse_node_id edge.source) (parse_node_id edge.target) p k
