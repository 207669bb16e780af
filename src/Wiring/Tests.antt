-- ===== src/Wiring/Tests.antt =====
-- The wiring helpers at a small graph.
use vortex_flow.Common.{
  String, none, List, [], ◌∷◌, ◌≡◌, refl, In, at_head, arith, eq_iff, split, join, includes,
}
use vortex_flow.Types.{TransformStage, Route, inline}
use vortex_flow.Wiring.{FleetGraph, NodeKind, NodeRef, fed_by, feeds, resolve}
use vortex_flow.Wiring.Mirror.{fed_by-feeds}

abbrev stage : String → List String → TransformStage
stage id inputs = record {
  id = id;
  fleet_id = "f";
  name = id;
  mode = inline;
  source_vrl = none;
  transform_id = none;
  inputs = inputs;
  created_at = "";
  updated_at = "";
}

abbrev route : String → Route
route id = record {
  id = id;
  fleet_id = "f";
  name = "errors";
  description = none;
  branches = [];
  source_ids = [];
  passthrough_sink_ids = [];
  created_by = none;
  created_at = "";
  updated_at = "";
}

abbrev two : FleetGraph String
two = record { components = []; routes = route "r" ∷ []; stages = stage "t" ("r.bad" ∷ []) ∷ [] }

abbrev branch_ref : NodeRef
branch_ref = record { kind = NodeKind.route; id = "r"; name = "errors → bad" }

fed_by_branch : fed_by two "t" ≡ branch_ref ∷ []
unfolding fed_by resolve split join includes
fed_by_branch = refl

fed_by-feeds_example : (k : NodeRef) × (k.id ≡ "t") × In k (feeds two "r")
unfolding fed_by resolve split join includes
fed_by-feeds_example =
    fed_by-feeds two "t" branch_ref (at_head refl) (ground (arith, eq_iff "r" "t"))
