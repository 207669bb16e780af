-- ===== src/FleetTopology/Ends.antt =====
-- What each drawn edge stands for; no edge dangles.
use vortex_flow.Common.{
  ℕ, String, Bool, true, false, Option, none, some, List, [], ◌∷◌, map, ◌==◌, show, ◌+s◌, ◌≡◌, inl,
  inr, refl, sym, ap, ◌∙◌, subst, any, filter, flat_map, has, uniq, has-uniq, has-In, In, at_head,
  later, not-In-nil, In-append, In-append_left, In-append_right, In-map, flat_map-In, In-any,
  filter-In, Bool-cases, arith, eq_of_test, ◌+◌,
}
use mathlib.Core.List.{map-append}
use vortex_flow.Types.{TransformStage, Route, RouteBranch, Component}
use vortex_flow.Wiring.{FleetGraph}
use vortex_flow.FleetTopology.{
  FlowEdge, FleetNodeData, node, comp_node_id, route_node_id, stage_node_id, edge, edge_from,
  sinks_of, sources_of, is_sink_id, upstream_node, input_edges, sink_edges, branch_edges,
  route_edges, stage_edges, direct_edges, flow_edges, node_ids, build_fleet_flow_graph,
}

one_edge :
    (o : Option String) (target slot : String) {e : FlowEdge}
    → In e (edge_from o target slot)
    → (o ≡ some e.source) × (e.target ≡ target)
one_edge none target slot h = not-In-nil h
one_edge (some src) target slot (at_head e) =
    (ap some (sym (ap (λ x. x.source) e)), ap (λ x. x.target) e)
one_edge (some src) target slot (later h) = not-In-nil h

module _ {V : Type 0} where
  -- The edge leads from the node of an input `id` to `target`, and can be deleted.
  pub record IsInput (g : FleetGraph V) (inputs : List String) (target : String) (e : FlowEdge)
      : Type 0 where
    pub id : String
    pub declared : has inputs id ≡ true
    pub upstream : upstream_node g id ≡ some e.source
    pub into : e.target ≡ target

  pub record IsOutput (g : FleetGraph V) (route_node : String) (e : FlowEdge) : Type 0 where
    pub id : String
    pub is_sink : is_sink_id g id ≡ true
    pub from : e.source ≡ route_node
    pub into : e.target ≡ comp_node_id id
    pub fixed : e.deletable ≡ false

  pub data Drawn (g : FleetGraph V) (e : FlowEdge) : Type 0 where
    into_stage :
        (s : TransformStage) → In s g.stages → IsInput g s.inputs (stage_node_id s.id) e → Drawn g e
    into_route :
        (r : Route) → In r g.routes → IsInput g r.source_ids (route_node_id r.id) e → Drawn g e
    into_sink :
        (c : Component V)
        → In c (sinks_of g.components)
        → IsInput g c.inputs (comp_node_id c.id) e
        → Drawn g e
    from_route : (r : Route) → In r g.routes → IsOutput g (route_node_id r.id) e → Drawn g e

  input_edges-IsInput :
      (g : FleetGraph V) (inputs : List String) (target slot : String) (e : FlowEdge)
      → In e (input_edges g inputs target slot)
      → IsInput g inputs target e
  unfolding input_edges
  input_edges-IsInput g inputs target slot e h =
      let (id, at, i) =
        flat_map-In (λ id. edge_from (upstream_node g id) target slot) (uniq inputs) h in
      let (up, to) = one_edge (upstream_node g id) target slot i in
      record {
        id = id;
        declared = sym (has-uniq inputs id) ∙ has-In (uniq inputs) at;
        upstream = up;
        into = to;
      }

  sink_edges-IsOutput :
      (g : FleetGraph V) (rn : String) (sink_ids : List String) (slot label : String) (e : FlowEdge)
      → In e (sink_edges g rn sink_ids slot label)
      → IsOutput g rn e
  unfolding sink_edges
  sink_edges-IsOutput g rn sink_ids slot label e h =
      let (id, at, i) = flat_map-In _ sink_ids h in
      elim (Bool-cases (is_sink_id g id)) [
        | inr no_sink ↦ not-In-nil (rw no_sink at i)
        | inl s ↦ of_one id s (rw s at i)
      ]
    where
      of_one :
          (id : String)
          → is_sink_id g id ≡ true
          → In e (edge rn (comp_node_id id) slot (some label) false ∷ [])
          → IsOutput g rn e
      of_one id s (at_head q) = record {
        id = id;
        is_sink = s;
        from = ap (λ x. x.source) q;
        into = ap (λ x. x.target) q;
        fixed = ap (λ x. x.deletable) q;
      }
      of_one id s (later q) = not-In-nil q

  branch_edges-IsOutput :
      (g : FleetGraph V) (rn : String) (i : ℕ) (bs : List RouteBranch) (e : FlowEdge)
      → In e (branch_edges g rn i bs)
      → IsOutput g rn e
  unfolding branch_edges
  branch_edges-IsOutput g rn i [] e h = not-In-nil h
  branch_edges-IsOutput g rn i (b ∷ bs) e h =
      elim (In-append (sink_edges g rn b.sink_ids ("b" +s show i) b.name) _ h) [
        | inl j ↦ sink_edges-IsOutput g rn b.sink_ids ("b" +s show i) b.name e j
        | inr j ↦ branch_edges-IsOutput g rn (i + 1) bs e j
      ]

  route_edges-Drawn :
      (g : FleetGraph V) (r : Route) (e : FlowEdge)
      → In r g.routes
      → In e (route_edges g r)
      → Drawn g e
  unfolding route_edges
  route_edges-Drawn g r e at h = elim (In-append _ _ h) [
    | inl i ↦ into_route r at (input_edges-IsInput g r.source_ids _ "in" e i)
    | inr i ↦ elim (In-append _ _ i) [
      | inl j ↦ from_route r at (branch_edges-IsOutput g _ 0 r.branches e j)
      | inr j ↦
          from_route r at (sink_edges-IsOutput g _ r.passthrough_sink_ids "pt" "_unmatched" e j)
    ]
  ]

  pub flow_edges-Drawn : (g : FleetGraph V) (e : FlowEdge) → In e (flow_edges g) → Drawn g e
  unfolding flow_edges
  flow_edges-Drawn g e h = elim (In-append (flat_map (stage_edges g) g.stages) _ h) [
    | inl i ↦
        let (s, at, j) = flat_map-In (stage_edges g) g.stages i in
        into_stage s at (input_edges-IsInput g s.inputs (stage_node_id s.id) "in" e j)
    | inr i ↦ elim (In-append (flat_map (route_edges g) g.routes) _ i) [
      | inl j ↦
          let (r, at, k) = flat_map-In (route_edges g) g.routes j in route_edges-Drawn g r e at k
      | inr j ↦
          let (c, at, k) = flat_map-In (direct_edges g) (sinks_of g.components) j in
          into_sink c at (input_edges-IsInput g c.inputs (comp_node_id c.id) "direct" e k)
    ]
  ]

  component-node :
      (g : FleetGraph V) (p : Component V → Bool) (id : String)
      → any (λ c. c.id == id) (filter p g.components) ≡ true
      → In (comp_node_id id) (node_ids g)
  component-node g p id h =
      let (c, at, q) = In-any (λ c. c.id == id) (filter p g.components) h in
      let (there, _) = filter-In p g.components at in
      In-append_left _ _ (
        subst (λ k. In (comp_node_id k) (map (λ c. comp_node_id c.id) g.components))
          (eq_of_test c.id id q) (In-map (λ c. comp_node_id c.id) g.components there))

  stage-node :
      (g : FleetGraph V) (s : TransformStage) → In s g.stages → In (stage_node_id s.id) (node_ids g)
  stage-node g s at =
      In-append_right _ _ (In-append_left _ _ (In-map (λ s. stage_node_id s.id) g.stages at))

  route-node : (g : FleetGraph V) (r : Route) → In r g.routes → In (route_node_id r.id) (node_ids g)
  route-node g r at =
      In-append_right _ _ (In-append_right _ _ (In-map (λ r. route_node_id r.id) g.routes at))

  upstream-node :
      (g : FleetGraph V) (id src : String) → upstream_node g id ≡ some src → In src (node_ids g)
  unfolding upstream_node
  upstream-node g id src h = elim (Bool-cases (any (λ c. c.id == id) (sources_of g.components))) [
    | inl e ↦
        let same : comp_node_id id ≡ src = ground arith in
        subst (λ k. In k (node_ids g)) same (component-node g _ id e)
    | inr e ↦ elim (Bool-cases (any (λ s. s.id == id) g.stages)) [
      | inl f ↦
          let (s, at, q) = In-any (λ s. s.id == id) g.stages f in
          let same : stage_node_id s.id ≡ src =
            ap stage_node_id (eq_of_test s.id id q) ∙ ground arith in
          subst (λ k. In k (node_ids g)) same (stage-node g s at)
      | inr f ↦ ground arith
    ]
  ]

  Drawn-ends :
      (g : FleetGraph V) (e : FlowEdge)
      → Drawn g e
      → In e.source (node_ids g) × In e.target (node_ids g)
  Drawn-ends g e (into_stage s at i) = (
    upstream-node g i.id e.source i.upstream,
    subst (λ k. In k (node_ids g)) (sym i.into) (stage-node g s at),
  )
  Drawn-ends g e (into_route r at i) = (
    upstream-node g i.id e.source i.upstream,
    subst (λ k. In k (node_ids g)) (sym i.into) (route-node g r at),
  )
  Drawn-ends g e (into_sink c at i) =
      let (there, _) = filter-In _ g.components at in
      (
        upstream-node g i.id e.source i.upstream,
        subst (λ k. In k (node_ids g)) (sym i.into)
            (In-append_left _ _ (In-map (λ c. comp_node_id c.id) g.components there)),
      )
  Drawn-ends g e (from_route r at o) = (
    subst (λ k. In k (node_ids g)) (sym o.from) (route-node g r at),
    subst (λ k. In k (node_ids g)) (sym o.into) (component-node g _ o.id o.is_sink),
  )

module _ {V P : Type 0} (place : List String → List (String × String) → String → P) where
  ids-build : (g : FleetGraph V) → map (λ n. n.id) (build_fleet_flow_graph place g).0 ≡ node_ids g
  unfolding build_fleet_flow_graph
  ids-build g = simp (map-append, map_ids)
    where
      map_ids :
          {A : Type 0} (key : A → String) (content : A → FleetNodeData) (xs : List A)
          → map (λ n. n.id) (map (λ x. node place g (key x) (content x)) xs) ≡ map key xs
      map_ids key content [] = refl
      map_ids key content (x ∷ xs) = ap (λ ys. key x ∷ ys) (map_ids key content xs)

  -- No edge dangles: both its ends are among the nodes that are drawn.
  pub build_fleet_flow_graph_ends :
      (g : FleetGraph V) (e : FlowEdge)
      → In e (build_fleet_flow_graph place g).1
      → In e.source (map (λ n. n.id) (build_fleet_flow_graph place g).0)
        × In e.target (map (λ n. n.id) (build_fleet_flow_graph place g).0)
  unfolding build_fleet_flow_graph
  build_fleet_flow_graph_ends g e h =
      subst (λ ids. In e.source ids × In e.target ids) (sym (ids-build g))
        (Drawn-ends g e (flow_edges-Drawn g e h))
