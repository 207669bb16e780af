-- ===== src/Canvas/Unwire.antt =====
-- Deleting edges on the canvas: `unwireEdge` for the edge menu, `onEdgesDelete` for a selection.
pub mod Inputs
pub mod Laws
pub mod Rounds
pub mod Selection
use vortex_flow.Common.{
  String, Bool, true, false, Option, none, some, List, [], ◌∷◌, ◌++◌, ◌||◌, ◌&&◌, not, ◌==◌,
  if◌then◌else◌, filter,
}
use vortex_flow.Wiring.{FleetGraph}
use vortex_flow.Canvas.{
  Parsed, parse_node_id, Update, set_component_inputs, set_stage_inputs, set_route_sources, Outcome,
  nothing, is_sink, component_kind, component_inputs, stage_inputs, route_sources,
  patch_sink_inputs, patch_stage_inputs, patch_route_sources,
}

-- An edge of the canvas, by the ids of its two nodes.
pub record CanvasEdge : Type 0 where
  pub source : String
  pub target : String

-- The snapshot after one `try` block, with the write that was sent and whether it failed.
pub record Attempt (V : Type 0) : Type 0 where
  pub graph : FleetGraph V
  pub sent : List Update
  pub failed : Bool

abbrev pub without : String → List String → List String
without id ids = filter (λ i. not (i == id)) ids

module _ {V : Type 0} where
  abbrev pub attempt : (Update → Bool) → FleetGraph V → Update → FleetGraph V → Attempt V
  attempt accepts live u patched =
      if accepts u
      then record { graph = patched; sent = u ∷ []; failed = false }
      else record { graph = live; sent = u ∷ []; failed = true }

  -- The new inputs are computed from `snap`, and the patch is applied to `live`.
  unfoldable pub unwire : (Update → Bool) → FleetGraph V → FleetGraph V → CanvasEdge → Attempt V
  unwire accepts snap live edge =
      let s = parse_node_id edge.source in
      let t = parse_node_id edge.target in
      if t.kind == "c" && is_sink (component_kind snap t.id)
      then (let next = without s.id (component_inputs snap t.id) in
          attempt accepts live (set_component_inputs t.id next) (patch_sink_inputs t.id next live))
      else if t.kind == "s"
      then (let next = without s.id (stage_inputs snap t.id) in
          attempt accepts live (set_stage_inputs t.id next) (patch_stage_inputs t.id next live))
      else if t.kind == "r"
      then (let next = without s.id (route_sources snap t.id) in
          attempt accepts live (set_route_sources t.id next) (patch_route_sources t.id next live))
      else record { graph = live; sent = []; failed = false }

  unfoldable pub unwire_edge : (Update → Bool) → FleetGraph V → CanvasEdge → Outcome V
  unwire_edge accepts g edge =
      let a = unwire accepts g g edge in
      record {
        graph = a.graph;
        sent = a.sent;
        hint = if a.failed then some "Unwire failed." else none;
        reload = true;
      }

  -- The loop of `onEdgesDelete`: each round reads the arrays that were taken before the loop.
  unfoldable pub unwire_all :
      (Update → Bool) → FleetGraph V → FleetGraph V → List CanvasEdge → Attempt V
  unwire_all accepts snap live [] = record { graph = live; sent = []; failed = false }
  unwire_all accepts snap live (edge ∷ edges) =
      let a = unwire accepts snap live edge in
      let rest = unwire_all accepts snap a.graph edges in
      record { graph = rest.graph; sent = a.sent ++ rest.sent; failed = a.failed || rest.failed }

  unfoldable pub on_edges_delete :
      (Update → Bool) → Bool → FleetGraph V → List CanvasEdge → Outcome V
  on_edges_delete accepts editable g deleted =
      if not editable
      then nothing g
      else (let a = unwire_all accepts g g deleted in
          record {
            graph = a.graph;
            sent = a.sent;
            hint = if a.failed then some "Unwire failed for one or more edges." else none;
            reload = true;
          })
