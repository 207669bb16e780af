-- ===== src/FleetTopology/Tests.antt =====
-- The drawn topology at a small fleet: a source, a stage that reads it, a route and a sink.
use vortex_flow.Common.{String, true, none, List, [], ◌∷◌, ◌≡◌, refl, In, at_head, has, map, uniq}
use vortex_flow.Types.{TransformStage, StageMode, Route, Component, ComponentKind}
use vortex_flow.Wiring.{FleetGraph}
use vortex_flow.Canvas.{parse_node_id, current_inputs}
use vortex_flow.FleetTopology.{
  FlowEdge, edge, build_fleet_flow_graph, flow_edges, input_edges, upstream_node, comp_node_id,
  stage_node_id,
}
use vortex_flow.FleetTopology.Ends.{build_fleet_flow_graph_ends}
use vortex_flow.FleetTopology.Wired.{HasDistinctIds, build_fleet_flow_graph_wired}

abbrev component : ComponentKind → String → List String → Component String
component kind id inputs = record {
  id = id;
  fleet_id = "f";
  kind = kind;
  name = id;
  component_type = "file";
  config = [];
  inputs = inputs;
  cert_refs = [];
  created_by = none;
  created_at = "";
  updated_at = "";
}

abbrev stage : TransformStage
stage = record {
  id = "t";
  fleet_id = "f";
  name = "t";
  mode = StageMode.inline;
  source_vrl = none;
  transform_id = none;
  inputs = "a" ∷ "gone" ∷ [];
  created_at = "";
  updated_at = "";
}

abbrev fan : Route
fan = record {
  id = "r";
  fleet_id = "f";
  name = "r";
  description = none;
  branches = record { name = "ok"; condition = ".ok"; sink_ids = "z" ∷ [] } ∷ [];
  source_ids = "t" ∷ [];
  passthrough_sink_ids = [];
  created_by = none;
  created_at = "";
  updated_at = "";
}

abbrev fleet : FleetGraph String
fleet = record {
  components = component ComponentKind.source "a" [] ∷ component ComponentKind.sink "z" [] ∷ [];
  routes = fan ∷ [];
  stages = stage ∷ [];
}

abbrev place : List String → List (String × String) → String → String
place ids ends id = id

abbrev first : FlowEdge
first = edge "c:a" "s:t" "in" none true

first_drawn : In first (build_fleet_flow_graph place fleet).1
unfolding build_fleet_flow_graph flow_edges input_edges upstream_node comp_node_id stage_node_id
    uniq
first_drawn = at_head refl

fleet-HasDistinctIds : HasDistinctIds fleet
fleet-HasDistinctIds = record {
  components = (refl, (refl, tt));
  stages = (refl, tt);
  routes = (refl, tt);
}

build_fleet_flow_graph_ends_example :
    In "c:a" (map (λ n. n.id) (build_fleet_flow_graph place fleet).0)
    × In "s:t" (map (λ n. n.id) (build_fleet_flow_graph place fleet).0)
build_fleet_flow_graph_ends_example = build_fleet_flow_graph_ends place fleet first first_drawn

build_fleet_flow_graph_wired_example :
    has (current_inputs fleet (parse_node_id "s:t")) (parse_node_id "c:a").id ≡ true
build_fleet_flow_graph_wired_example =
    build_fleet_flow_graph_wired place fleet first fleet-HasDistinctIds first_drawn refl
