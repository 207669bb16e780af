-- ===== src/FleetTopology/Wired.antt =====
-- The drawn edges and the handlers of the canvas agree on the wiring.
use vortex_flow.Common.{
  String, true, some, List, inl, inr, ◌≡◌, ◌==◌, ap, map, any, has, In, find-Distinct, filter-In,
  Distinct, Bool-cases, arith,
}
use vortex_flow.Types.{TransformStage, Route, Component}
use vortex_flow.Wiring.{FleetGraph}
use vortex_flow.Canvas.{
  parse_node_id, current_inputs, stage_inputs, component_inputs, route_sources,
}
use vortex_flow.FleetTopology.{
  FlowEdge, comp_node_id, stage_node_id, route_node_id, upstream_node, sources_of,
  build_fleet_flow_graph,
}
use vortex_flow.FleetTopology.Names.{
  parse_node_id-comp_node_id, parse_node_id-stage_node_id, parse_node_id-route_node_id,
}
use vortex_flow.FleetTopology.Ends.{
  IsInput, Drawn, into_stage, into_route, into_sink, from_route, flow_edges-Drawn,
}

module _ {V : Type 0} where
  -- The ids of the components, of the stages and of the routes are distinct.
  pub record HasDistinctIds (g : FleetGraph V) : Type 0 where
    pub components : Distinct (map (λ c. c.id) g.components)
    pub stages : Distinct (map (λ s. s.id) g.stages)
    pub routes : Distinct (map (λ r. r.id) g.routes)

  parse_upstream :
      (g : FleetGraph V) (id src : String)
      → upstream_node g id ≡ some src
      → (parse_node_id src).id ≡ id
  unfolding upstream_node
  parse_upstream g id src h = elim (Bool-cases (any (λ c. c.id == id) (sources_of g.components))) [
    | inl e ↦
        let same : src ≡ comp_node_id id = ground arith in
        rw same (ap (λ p. p.id) (parse_node_id-comp_node_id id))
    | inr e ↦ elim (Bool-cases (any (λ s. s.id == id) g.stages)) [
      | inl f ↦
          let same : src ≡ stage_node_id id = ground arith in
          rw same (ap (λ p. p.id) (parse_node_id-stage_node_id id))
      | inr f ↦ ground arith
    ]
  ]

  input-wired :
      (g : FleetGraph V) (inputs : List String) (target : String) (e : FlowEdge)
      → IsInput g inputs target e
      → current_inputs g (parse_node_id target) ≡ inputs
      → has (current_inputs g (parse_node_id e.target)) (parse_node_id e.source).id ≡ true
  input-wired g inputs target e i same =
      rw (parse_upstream g i.id e.source i.upstream, i.into, same) i.declared

  current-stage :
      (g : FleetGraph V) (s : TransformStage)
      → HasDistinctIds g
      → In s g.stages
      → current_inputs g (parse_node_id (stage_node_id s.id)) ≡ s.inputs
  unfolding current_inputs stage_inputs
  current-stage g s d at =
      rw (parse_node_id-stage_node_id s.id) (rw (find-Distinct (λ s. s.id) g.stages d.stages at))

  current-route :
      (g : FleetGraph V) (r : Route)
      → HasDistinctIds g
      → In r g.routes
      → current_inputs g (parse_node_id (route_node_id r.id)) ≡ r.source_ids
  unfolding current_inputs route_sources
  current-route g r d at =
      rw (parse_node_id-route_node_id r.id) (rw (find-Distinct (λ r. r.id) g.routes d.routes at))

  current-component :
      (g : FleetGraph V) (c : Component V)
      → HasDistinctIds g
      → In c g.components
      → current_inputs g (parse_node_id (comp_node_id c.id)) ≡ c.inputs
  unfolding current_inputs component_inputs
  current-component g c d at =
      rw (parse_node_id-comp_node_id c.id)
        (rw (find-Distinct (λ c. c.id) g.components d.components at))

  Drawn-wired :
      (g : FleetGraph V) (e : FlowEdge)
      → HasDistinctIds g
      → Drawn g e
      → e.deletable ≡ true
      → has (current_inputs g (parse_node_id e.target)) (parse_node_id e.source).id ≡ true
  Drawn-wired g e d (into_stage s at i) h = input-wired g s.inputs _ e i (current-stage g s d at)
  Drawn-wired g e d (into_route r at i) h =
      input-wired g r.source_ids _ e i (current-route g r d at)
  Drawn-wired g e d (into_sink c at i) h =
      let (there, _) = filter-In _ g.components at in
      input-wired g c.inputs _ e i (current-component g c d there)
  Drawn-wired g e d (from_route r at o) h = ground (arith, o.fixed)

module _ {V P : Type 0} (place : List String → List (String × String) → String → P) where
  -- Where ids are distinct, the two ends of a drawn edge that can be deleted parse to a node and to
  -- one of the inputs that the handlers of the canvas read for it.
  pub build_fleet_flow_graph_wired :
      (g : FleetGraph V) (e : FlowEdge)
      → HasDistinctIds g
      → In e (build_fleet_flow_graph place g).1
      → e.deletable ≡ true
      → has (current_inputs g (parse_node_id e.target)) (parse_node_id e.source).id ≡ true
  unfolding build_fleet_flow_graph
  build_fleet_flow_graph_wired g e d h = Drawn-wired g e d (flow_edges-Drawn g e h)
