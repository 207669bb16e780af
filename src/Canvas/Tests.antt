-- ===== src/Canvas/Tests.antt =====
-- The canvas at small graphs.
use vortex_flow.Common.{
  not, ◌&&◌, String, Bool, true, false, none, some, List, [], ◌∷◌, ◌≡◌, ◌↔◌, refl, has, get, map_of,
  insert, split, join, trim, if◌then◌else◌, ◌==◌, ◌||◌, length, arith, eq_iff,
}
use vortex_flow.Types.{TransformStage, inline}
use vortex_flow.Wiring.{FleetGraph}
use vortex_flow.Canvas.{
  parse_node_id, Update, create_stage, current_inputs, stage_inputs, on_connect, patch_stage_inputs,
}
use vortex_flow.Canvas.Cycle.{inputs_of, would_cycle, cycle_search, search_from}
use vortex_flow.Canvas.Cycle.Correct.{Reads, would_cycle_iff}
use vortex_flow.Canvas.Patched.{IsWired}
use vortex_flow.Canvas.Acyclic.{on_connect-IsWired}
use vortex_flow.Canvas.Unwire.{CanvasEdge, without, unwire, unwire_all, on_edges_delete}
use vortex_flow.Canvas.Unwire.Rounds.{is_left_out, last_taken}
use vortex_flow.Canvas.Unwire.Selection.{on_edges_delete-IsWired, stage_inputs-on_edges_delete_pair}
use vortex_flow.Canvas.Insert.{CreateReply, created, insert_remap, insert_remap_splices, set_inputs}

abbrev stage : String → List String → TransformStage
stage id inputs = record {
  id = id;
  fleet_id = "f";
  name = id;
  mode = inline;
  source_vrl = none;
  transform_id = none;
  inputs = inputs;
  created_at = "";
  updated_at = "";
}

abbrev graph : List TransformStage → FleetGraph String
graph stages = record { components = []; routes = []; stages = stages }

abbrev chain : List TransformStage
chain = stage "a" [] ∷ stage "b" ("a" ∷ []) ∷ []

abbrev take_all : Update → Bool
take_all u = true

chain_cycles : (would_cycle chain "b" "a" ≡ true) × (would_cycle chain "a" "b" ≡ false)
unfolding would_cycle cycle_search search_from map_of insert get
chain_cycles = (refl, refl)

would_cycle_iff_example :
    (cycle_search chain "b" "a" ≡ some (would_cycle chain "b" "a"))
    × ((would_cycle chain "b" "a" ≡ true) ↔ Reads (inputs_of chain) "a" "b")
would_cycle_iff_example = would_cycle_iff chain "b" "a"

abbrev loose : List TransformStage
loose = stage "a" [] ∷ stage "b" [] ∷ []

loose-IsWired : IsWired loose
unfolding map_of insert get
loose-IsWired = record {
  distinct = (refl, (refl, tt));
  acyclic = λ a b (ins, g, h) r. ground arith;
}

on_connect-IsWired_example :
    IsWired (on_connect take_all true (graph loose) "s:a" "s:b").graph.stages
on_connect-IsWired_example =
    on_connect-IsWired take_all true (graph loose) "s:a" "s:b" loose-IsWired

abbrev edge : String → String → CanvasEdge
edge s t = record { source = s; target = t }

abbrev joined : FleetGraph String
joined = graph (stage "a" [] ∷ stage "b" [] ∷ stage "t" ("a" ∷ "b" ∷ []) ∷ [])

stage_inputs-on_edges_delete_pair_example :
    stage_inputs
      (on_edges_delete take_all true joined (edge "s:a" "s:t" ∷ edge "s:b" "s:t" ∷ [])).graph
      (parse_node_id "s:t").id
    ≡ without (parse_node_id "s:b").id (stage_inputs joined (parse_node_id "s:t").id)
unfolding unwire parse_node_id split join
stage_inputs-on_edges_delete_pair_example =
    stage_inputs-on_edges_delete_pair take_all joined (edge "s:a" "s:t") (edge "s:b" "s:t") refl
      refl refl refl

-- After both deletes the stage still reads "a".
pair_kept :
    stage_inputs
      (on_edges_delete take_all true joined (edge "s:a" "s:t" ∷ edge "s:b" "s:t" ∷ [])).graph
      "t"
    ≡ "a" ∷ []
unfolding on_edges_delete unwire_all unwire parse_node_id split join stage_inputs patch_stage_inputs
pair_kept = refl

on_edges_delete-IsWired_example :
    IsWired (on_edges_delete take_all true (graph loose) (edge "s:a" "s:b" ∷ [])).graph.stages
    × ((k b : String)
        → has
            (stage_inputs
              (on_edges_delete take_all true (graph loose) (edge "s:a" "s:b" ∷ [])).graph
              k)
            b
          ≡ (has (stage_inputs (graph loose) k) b
              && not (is_left_out (last_taken take_all (graph loose) k (edge "s:a" "s:b" ∷ [])) b)))
on_edges_delete-IsWired_example =
    on_edges_delete-IsWired take_all true (graph loose) (edge "s:a" "s:b" ∷ []) loose-IsWired

abbrev make : Update → CreateReply
make u = created (some "n")

insert_remap_splices_example :
    (next : List String) × ((insert_remap make take_all true joined "s:a" "s:t" "parse"
        ". = 1").sent
      ≡ create_stage (trim "parse") ". = 1" ((parse_node_id "s:a").id ∷ [])
        ∷ set_inputs (parse_node_id "s:t") next
        ∷ [])
    × (length next ≡ length (current_inputs joined (parse_node_id "s:t")))
    × ((b : String)
        → has next b ≡ (
            if b == (parse_node_id "s:a").id
            then false
            else b == "n" || has (current_inputs joined (parse_node_id "s:t")) b))
unfolding current_inputs stage_inputs parse_node_id split join
insert_remap_splices_example =
    insert_remap_splices make take_all joined "s:a" "s:t" "parse" ". = 1" "n" refl refl
      (ground (arith, eq_iff "n" "")) (ground (arith, eq_iff "a" "n"))
