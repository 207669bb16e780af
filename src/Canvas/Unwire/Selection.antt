-- ===== src/Canvas/Unwire/Selection.antt =====
-- Deleting several edges at once.
use vortex_flow.Common.{
  text_tests, String, Bool, Option, none, some, if◌then◌else◌, true, false, List, [], ◌∷◌, ◌≡◌, inl,
  inr, refl, sym, ap, ◌∙◌, subst, ◌&&◌, not, ◌==◌, has, Distinct, arith, eq_iff,
}
use vortex_flow.Types.{TransformStage}
use vortex_flow.Wiring.{FleetGraph}
use vortex_flow.Canvas.{
  Parsed, parse_node_id, Update, patch_stage_inputs, stage_inputs, tags_differ,
}
use vortex_flow.Canvas.Cycle.{inputs_of}
use vortex_flow.Canvas.Graphs.{Edge, reduced-IsAcyclic}
use vortex_flow.Canvas.Patched.{IsWired, ids, patched, ids-patched, Edge-patched, stage_inputs-Edge}
use vortex_flow.Canvas.Unwire.Inputs.{stage_inputs-patch_twice}
use vortex_flow.Canvas.Unwire.Rounds.{
  next_inputs, stages-unwire, last_taken, stage_inputs-unwire_all, inputs_left, is_left_out,
}
use vortex_flow.Canvas.Unwire.Laws.{unwired_graph, graph-unwire}
use vortex_flow.Canvas.Unwire.{CanvasEdge, without, unwire, unwire_all, on_edges_delete}

has-without :
    (ids : List String) (id b : String) → has (without id ids) b ≡ (has ids b && not (b == id))
has-without [] id b = refl
has-without (x ∷ xs) id b = grind (text_tests, has-without xs id b)

-- The live stages have the ids of those of the snapshot, and no other edges.
record IsReduced (snap live : List TransformStage) : Type 0 where
  same_ids : ids live ≡ ids snap
  edges : (a b : String) → Edge (inputs_of live) a b → Edge (inputs_of snap) a b

module _ {V : Type 0} where
  patched-IsReduced :
      (snap : FleetGraph V) (live : List TransformStage) (t s : String)
      → Distinct (ids snap.stages)
      → IsReduced snap.stages live
      → IsReduced snap.stages (patched t (next_inputs snap t s) live)
  patched-IsReduced snap live t s d r = record {
    same_ids = ids-patched t _ live ∙ r.same_ids;
    edges = λ a b edge. elim (Edge-patched t a b (next_inputs snap t s) live edge) [
      | inl old ↦ r.edges a b old
      | inr (at, h) ↦
          subst (λ k. Edge (inputs_of snap.stages) k b) (sym at)
            (stage_inputs-Edge snap t b d (ground (arith, has-without (stage_inputs snap t) s b)))
    ];
  }

  unwire-IsReduced :
      (accepts : Update → Bool) (snap live : FleetGraph V) (edge : CanvasEdge)
      → Distinct (ids snap.stages)
      → IsReduced snap.stages live.stages
      → IsReduced snap.stages (unwire accepts snap live edge).graph.stages
  unwire-IsReduced accepts snap live edge d r = elim (stages-unwire accepts snap live edge) [
    | inl same ↦ subst (IsReduced snap.stages) (sym same) r
    | inr (t, s, e) ↦
        subst (IsReduced snap.stages) (sym e) (patched-IsReduced snap live.stages t s d r)
  ]

  unwire_all-IsReduced :
      (accepts : Update → Bool) (snap live : FleetGraph V) (edges : List CanvasEdge)
      → Distinct (ids snap.stages)
      → IsReduced snap.stages live.stages
      → IsReduced snap.stages (unwire_all accepts snap live edges).graph.stages
  unfolding unwire_all
  unwire_all-IsReduced accepts snap live [] d r = r
  unwire_all-IsReduced accepts snap live (edge ∷ edges) d r =
      unwire_all-IsReduced accepts snap (unwire accepts snap live edge).graph edges d
        (unwire-IsReduced accepts snap live edge d r)

  has-inputs_left :
      (g : FleetGraph V) (k : String) (o : Option String) (b : String)
      → has (inputs_left g g k o) b ≡ (has (stage_inputs g k) b && not (is_left_out o b))
  has-inputs_left g k none b = ground arith
  has-inputs_left g k (some s) b = has-without (stage_inputs g k) s b

  -- Whatever edges are deleted and whichever writes fail, where the stages of the snapshot have distinct
  -- ids and no cycle, so do the stages that are left. And where the canvas can be edited, each stage
  -- loses, of its inputs, the source of the last deleted edge into it whose write the server takes, and
  -- no other.
  pub on_edges_delete-IsWired :
      (accepts : Update → Bool) (editable : Bool) (g : FleetGraph V) (deleted : List CanvasEdge)
      → IsWired g.stages
      → IsWired (on_edges_delete accepts editable g deleted).graph.stages
        × ((k b : String)
            → has (stage_inputs (on_edges_delete accepts editable g deleted).graph k) b ≡ (
                has (stage_inputs g k) b
                && not (is_left_out (if editable then last_taken accepts g k deleted else none) b)))
  unfolding on_edges_delete
  on_edges_delete-IsWired accepts false g deleted w = (w, λ k b. ground arith)
  on_edges_delete-IsWired accepts true g deleted w =
      let start : IsReduced g.stages g.stages = record { same_ids = refl; edges = λ a b e. e } in
      let r = unwire_all-IsReduced accepts g g deleted w.distinct start in
      (
        record {
          distinct = subst Distinct (sym r.same_ids) w.distinct;
          acyclic = reduced-IsAcyclic r.edges w.acyclic;
        },
        λ k b.
            ap (λ is. has is b) (stage_inputs-unwire_all accepts g g deleted k refl)
            ∙ has-inputs_left g k (last_taken accepts g k deleted) b,
      )

  stage_case :
      (snap live : FleetGraph V) (s t : Parsed)
      → t.kind ≡ "s"
      → unwired_graph snap live s t ≡ patch_stage_inputs t.id (next_inputs snap t.id s.id) live
  stage_case snap live s t k = ground (arith, eq_iff t.kind "c", eq_iff t.kind "s", tags_differ)

  -- Where two edges of one stage are deleted at once and the server takes both writes, the second
  -- write puts the first input back: the stage keeps all its inputs but the second.
  pub stage_inputs-on_edges_delete_pair :
      (accepts : Update → Bool) (g : FleetGraph V) (e f : CanvasEdge)
      → (parse_node_id e.target).kind ≡ "s"
      → f.target ≡ e.target
      → (unwire accepts g g e).failed ≡ false
      → (unwire accepts g (unwire accepts g g e).graph f).failed ≡ false
      → stage_inputs (on_edges_delete accepts true g (e ∷ f ∷ [])).graph (parse_node_id e.target).id
        ≡ without (parse_node_id f.source).id (stage_inputs g (parse_node_id e.target).id)
  unfolding on_edges_delete unwire_all
  stage_inputs-on_edges_delete_pair accepts g e f k same ok ok' =
      let t = (parse_node_id e.target).id in
      let first = next_inputs g t (parse_node_id e.source).id in
      let live = (unwire accepts g g e).graph in
      let one : live ≡ patch_stage_inputs t first g =
        graph-unwire accepts g g e ok
        ∙ stage_case g g (parse_node_id e.source) (parse_node_id e.target) k in
      let two =
        graph-unwire accepts g live f ok'
        ∙ ap (λ x. unwired_graph g live (parse_node_id f.source) (parse_node_id x)) same
        ∙ stage_case g live (parse_node_id f.source) (parse_node_id e.target) k in
      ap (λ x. stage_inputs x t)
        (two ∙ ap (patch_stage_inputs t (next_inputs g t (parse_node_id f.source).id)) one)
      ∙ stage_inputs-patch_twice t (parse_node_id f.source).id first g
