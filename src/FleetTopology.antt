-- ===== src/FleetTopology.antt =====
-- frontend/src/lib/fleetTopology.ts: the graph that is drawn for the designed topology of a fleet.
-- `place` stands for the layout of dagre, from the ids of the nodes and the pairs of ends of the
-- edges to the position of a node. Styles are not modelled.
pub mod Names
pub mod Ends
pub mod Wired
mod Tests
use vortex_flow.Common.{
  ℕ, zero, suc, ◌+◌, String, Bool, true, false, Option, none, some, List, [], ◌∷◌, ◌++◌, map, not,
  ◌==◌, if◌then◌else◌, nat_eq, any, filter, flat_map, has, uniq, length, show, ◌+s◌, ◌||◌,
}
use vortex_flow.Types.{TransformStage, StageMode, Route, RouteBranch, Component, ComponentKind}
use vortex_flow.Wiring.{FleetGraph}

pub data FleetNodeKind : Type 0 where
  source remap route sink : FleetNodeKind

pub record FleetNodeData : Type 0 where
  pub kind : FleetNodeKind
  pub label : String
  pub sub_label : String
  pub route_id : Option String
  pub stage_id : Option String
  pub orphan : Bool

pub record FlowNode (P : Type 0) : Type 0 where
  pub id : String
  pub position : P
  pub content : FleetNodeData

pub record FlowEdge : Type 0 where
  pub id : String
  pub source : String
  pub target : String
  pub label : Option String
  pub deletable : Bool

unfoldable pub comp_node_id : String → String
comp_node_id id = "c:" +s id

unfoldable pub route_node_id : String → String
route_node_id id = "r:" +s id

unfoldable pub stage_node_id : String → String
stage_node_id id = "s:" +s id

abbrev pub is_source_kind : ComponentKind → Bool
is_source_kind ComponentKind.source = true
is_source_kind ComponentKind.sink = false

-- `addEdge`
abbrev pub edge : String → String → String → Option String → Bool → FlowEdge
edge src dst slot label deletable = record {
  id = src +s "->" +s dst +s ":" +s slot;
  source = src;
  target = dst;
  label = label;
  deletable = deletable;
}

abbrev pub edge_from : Option String → String → String → List FlowEdge
edge_from none target slot = []
edge_from (some src) target slot = edge src target slot none true ∷ []

-- `connected.has(id)`: the set holds both ends of every edge.
abbrev pub connected : List FlowEdge → String → Bool
connected edges id = any (λ e. e.source == id || e.target == id) edges

module _ {V : Type 0} where
  abbrev pub sources_of : List (Component V) → List (Component V)
  sources_of components = filter (λ c. is_source_kind c.kind) components

  abbrev pub sinks_of : List (Component V) → List (Component V)
  sinks_of components = filter (λ c. not (is_source_kind c.kind)) components

  -- `sinkById.has(id)`
  abbrev pub is_sink_id : FleetGraph V → String → Bool
  is_sink_id g id = any (λ c. c.id == id) (sinks_of g.components)

  -- The node of an upstream resource: a source component or a remap stage.
  unfoldable pub upstream_node : FleetGraph V → String → Option String
  upstream_node g id =
      if any (λ c. c.id == id) (sources_of g.components)
      then some (comp_node_id id)
      else if any (λ s. s.id == id) g.stages
      then some (stage_node_id id)
      else none

  -- The edges into `target` from those of the inputs that are upstream nodes.
  unfoldable pub input_edges : FleetGraph V → List String → String → String → List FlowEdge
  input_edges g inputs target slot =
      flat_map (λ id. edge_from (upstream_node g id) target slot) (uniq inputs)

  -- The edges of a route to those of the ids that are sinks.
  unfoldable pub sink_edges : FleetGraph V → String → List String → String → String → List FlowEdge
  sink_edges g route_node sink_ids slot label =
      flat_map
        (λ id.
          if is_sink_id g id
          then edge route_node (comp_node_id id) slot (some label) false ∷ []
          else [])
        sink_ids

  unfoldable pub branch_edges : FleetGraph V → String → ℕ → List RouteBranch → List FlowEdge
  branch_edges g route_node i [] = []
  branch_edges g route_node i (b ∷ bs) =
      sink_edges g route_node b.sink_ids ("b" +s show i) b.name
      ++ branch_edges g route_node (i + 1) bs

  unfoldable pub route_edges : FleetGraph V → Route → List FlowEdge
  route_edges g r =
      let rn = route_node_id r.id in
      input_edges g r.source_ids rn "in"
      ++ (branch_edges g rn 0 r.branches
          ++ sink_edges g rn r.passthrough_sink_ids "pt" "_unmatched")

  abbrev pub stage_edges : FleetGraph V → TransformStage → List FlowEdge
  stage_edges g s = input_edges g s.inputs (stage_node_id s.id) "in"

  -- Direct wiring of a sink, with no route.
  abbrev pub direct_edges : FleetGraph V → Component V → List FlowEdge
  direct_edges g c = input_edges g c.inputs (comp_node_id c.id) "direct"

  unfoldable pub flow_edges : FleetGraph V → List FlowEdge
  flow_edges g =
      flat_map (stage_edges g) g.stages
      ++ (flat_map (route_edges g) g.routes ++ flat_map (direct_edges g) (sinks_of g.components))

  abbrev pub component_data : List FlowEdge → Component V → FleetNodeData
  component_data edges c = record {
    kind = if is_source_kind c.kind then source else sink;
    label = c.name;
    sub_label = c.component_type;
    route_id = none;
    stage_id = none;
    orphan = not (connected edges (comp_node_id c.id));
  }

abbrev pub mode_label : StageMode → String
mode_label StageMode.library = "remap · library"
mode_label StageMode.inline = "remap"

abbrev pub stage_data : List FlowEdge → TransformStage → FleetNodeData
stage_data edges s = record {
  kind = remap;
  label = s.name;
  sub_label = mode_label s.mode;
  route_id = none;
  stage_id = some s.id;
  orphan = not (connected edges (stage_node_id s.id));
}

abbrev pub is_empty {ℓ} : {A : Type ℓ} → List A → Bool
is_empty [] = true
is_empty (x ∷ xs) = false

abbrev pub route_data : Route → FleetNodeData
route_data r =
    let n = length r.branches in
    record {
      kind = route;
      label = r.name;
      sub_label =
          show n +s " " +s (if nat_eq n 1 then "branch" else "branches") +s " + passthrough";
      route_id = some r.id;
      stage_id = none;
      orphan = is_empty r.source_ids;
    }

module _ {V : Type 0} where
  -- The ids of the nodes, in the order in which they are drawn.
  abbrev pub node_ids : FleetGraph V → List String
  node_ids g =
      map (λ c. comp_node_id c.id) g.components
      ++ (map (λ s. stage_node_id s.id) g.stages ++ map (λ r. route_node_id r.id) g.routes)

module _ {V P : Type 0} (place : List String → List (String × String) → String → P) where
  abbrev pub node : FleetGraph V → String → FleetNodeData → FlowNode P
  node g id content = record {
    id = id;
    position = place (node_ids g) (map (λ e. (e.source, e.target)) (flow_edges g)) id;
    content = content;
  }

  pub build_fleet_flow_graph : FleetGraph V → List (FlowNode P) × List FlowEdge
  build_fleet_flow_graph g =
      let edges = flow_edges g in
      (
        map (λ c. node g (comp_node_id c.id) (component_data edges c)) g.components
            ++ (map (λ s. node g (stage_node_id s.id) (stage_data edges s)) g.stages
                ++ map (λ r. node g (route_node_id r.id) (route_data r)) g.routes),
        edges,
      )
