-- ===== src/Wiring.antt =====
-- frontend/src/lib/wiring.ts: who feeds a node of a fleet's graph, and whom it feeds. A list that
-- the types declare is there: the source's `?? []` on it is not modelled.
pub mod Mirror
mod Tests
use vortex_flow.Common.{
  String, Bool, Option, none, some, List, [], ◌∷◌, ◌++◌, map, ◌||◌, ◌&&◌, not, ◌==◌, if◌then◌else◌,
  any, find, filter, flat_map, split, join, includes, first_part, later_parts, ◌+s◌, starts_with,
}
use vortex_flow.Types.{TransformStage, Route, Component, ComponentKind}

pub record FleetGraph (V : Type 0) : Type 0 where
  pub components : List (Component V)
  pub routes : List Route
  pub stages : List TransformStage

pub data NodeKind : Type 0 where
  source sink transform route : NodeKind

pub record NodeRef : Type 0 where
  pub kind : NodeKind
  pub id : String
  pub name : String

-- `kind: c.kind`
abbrev pub node_kind : ComponentKind → NodeKind
node_kind ComponentKind.source = source
node_kind ComponentKind.sink = sink

abbrev pub matches_id : String → String → Bool
matches_id target i = (i == target) || starts_with i (target +s ".")

unfoldable pub matches_target : List String → String → Bool
matches_target ids target = any (matches_id target) ids

-- The ids that a route reads or writes.
abbrev pub route_ids : Route → List String
route_ids r = r.source_ids ++ (r.passthrough_sink_ids ++ flat_map (λ b. b.sink_ids) r.branches)

abbrev pub stage_ref : TransformStage → NodeRef
stage_ref s = record { kind = transform; id = s.id; name = s.name }

abbrev pub route_ref : Route → NodeRef
route_ref r = record { kind = route; id = r.id; name = r.name }

-- An id that resolves to nothing shows as a source of that name.
abbrev pub ref_or : String → Option NodeRef → NodeRef
ref_or id none = record { kind = source; id = id; name = id }
ref_or id (some r) = r

-- The `routeId.branch` case of `resolve`.
unfoldable pub resolve_branch : List Route → String → Option NodeRef
resolve_branch routes id =
    let parts = split "." id in
    if includes "." id
    then (elim (find (λ r. r.id == first_part parts) routes) [
      | none ↦ none
      | some r ↦ some (record {
        kind = route;
        id = r.id;
        name = r.name +s " → " +s join "." (later_parts parts);
      })
    ])
    else none

module _ {V : Type 0} where
  abbrev pub component_ref : Component V → NodeRef
  component_ref c = record { kind = node_kind c.kind; id = c.id; name = c.name }

  unfoldable pub resolve : FleetGraph V → String → Option NodeRef
  unfolding resolve_branch
  resolve g id = elim (find (λ c. c.id == id) g.components) [
    | some c ↦ some (component_ref c)
    | none ↦ elim (find (λ s. s.id == id) g.stages) [
      | some s ↦ some (stage_ref s)
      | none ↦ elim (find (λ r. r.id == id) g.routes) [
        | some r ↦ some (route_ref r)
        | none ↦ resolve_branch g.routes id
      ]
    ]
  ]

  unfoldable pub feeds : FleetGraph V → String → List NodeRef
  unfolding matches_target
  feeds g target =
      map component_ref
        (filter (λ c. not (c.id == target) && matches_target c.inputs target) g.components)
      ++ (map stage_ref
            (filter (λ s. not (s.id == target) && matches_target s.inputs target) g.stages)
          ++ map route_ref
              (filter (λ r. not (r.id == target) && matches_target (route_ids r) target) g.routes))

  -- The declared inputs of the node: the first of the component, stage or route with the id.
  unfoldable pub inputs_of_node : FleetGraph V → String → List String
  inputs_of_node g target = elim (find (λ c. c.id == target) g.components) [
    | some c ↦ c.inputs
    | none ↦ elim (find (λ s. s.id == target) g.stages) [
      | some s ↦ s.inputs
      | none ↦ elim (find (λ r. r.id == target) g.routes) [ some r ↦ r.source_ids | none ↦ [] ]
    ]
  ]

  abbrev pub ref_of : FleetGraph V → String → NodeRef
  ref_of g id = ref_or id (resolve g id)

  unfoldable pub fed_by : FleetGraph V → String → List NodeRef
  unfolding inputs_of_node
  fed_by g target = map (ref_of g) (inputs_of_node g target)
