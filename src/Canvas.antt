-- ===== src/Canvas.antt =====
-- frontend/src/components/topology/FleetTopologyCanvas.tsx: the wiring done on the canvas. The
-- snapshot `dataRef.current` is a `FleetGraph`. A handler is a function of the snapshot, of the
-- gesture and of the server's replies; it returns the new snapshot with the requests that it sent,
-- the message that it flashed and whether it reloads. Other handlers do not run while it waits.
pub mod Cycle
pub mod Graphs
pub mod Patched
pub mod Acyclic
pub mod Unwire
pub mod Insert
mod Tests
use vortex_flow.Common.{
  String, Bool, true, false, Option, none, some, List, [], ◌∷◌, ◌++◌, map, ◌||◌, ◌&&◌, not, ◌==◌,
  if◌then◌else◌, find, has, ◌≢◌, arith, eq_iff, uniq, split, join, first_part, later_parts,
}
use vortex_flow.Types.{TransformStage, Route, Component, ComponentKind}
use vortex_flow.Wiring.{FleetGraph}
use Cycle.{would_cycle}

pub record Parsed : Type 0 where
  pub kind : String
  pub id : String

unfoldable pub parse_node_id : String → Parsed
parse_node_id node_id =
    let parts = split ":" node_id in
    record { kind = first_part parts; id = join ":" (later_parts parts) }

pub tags_differ : ◌≢◌ {A = String} "c" "s" × ◌≢◌ {A = String} "c" "r" × ◌≢◌ {A = String} "s" "r"
tags_differ =
    (ground (arith, eq_iff "c" "s"), ground (arith, eq_iff "c" "r"), ground (arith, eq_iff "s" "r"))

-- A write that the canvas sends.
pub data Update : Type 0 where
  set_component_inputs : String → List String → Update
  set_stage_inputs : String → List String → Update
  set_route_sources : String → List String → Update
  create_stage : String → String → List String → Update

pub record Outcome (V : Type 0) : Type 0 where
  pub graph : FleetGraph V
  pub sent : List Update
  pub hint : Option String
  pub reload : Bool

abbrev pub is_source : Option ComponentKind → Bool
is_source (some ComponentKind.source) = true
is_source _ = false

abbrev pub is_sink : Option ComponentKind → Bool
is_sink (some ComponentKind.sink) = true
is_sink _ = false

-- `xs.find(...)?.inputs ?? []`
abbrev pub inputs_or {ℓ} : {A : Type ℓ} → (A → List String) → Option A → List String
inputs_or f none = []
inputs_or f (some a) = f a

module _ {V : Type 0} where
  unfoldable pub patch_sink_inputs : String → List String → FleetGraph V → FleetGraph V
  patch_sink_inputs id inputs g = record g {
    components = map (λ c. if c.id == id then record c { inputs = inputs } else c) g.components;
  }

  unfoldable pub patch_stage_inputs : String → List String → FleetGraph V → FleetGraph V
  patch_stage_inputs id inputs g = record g {
    stages = map (λ s. if s.id == id then record s { inputs = inputs } else s) g.stages;
  }

  unfoldable pub patch_route_sources : String → List String → FleetGraph V → FleetGraph V
  patch_route_sources id ids g = record g {
    routes = map (λ r. if r.id == id then record r { source_ids = ids } else r) g.routes;
  }

  unfoldable pub component_kind : FleetGraph V → String → Option ComponentKind
  component_kind g id = elim (find (λ c. c.id == id) g.components) [
    | none ↦ none
    | some c ↦ some c.kind
  ]

  unfoldable pub component_inputs : FleetGraph V → String → List String
  component_inputs g id = inputs_or (λ c. c.inputs) (find (λ c. c.id == id) g.components)

  unfoldable pub stage_inputs : FleetGraph V → String → List String
  stage_inputs g id = inputs_or (λ s. s.inputs) (find (λ s. s.id == id) g.stages)

  unfoldable pub route_sources : FleetGraph V → String → List String
  route_sources g id = inputs_or (λ r. r.source_ids) (find (λ r. r.id == id) g.routes)

  -- The inputs of a target: of a sink or a stage, or the sources of a route.
  unfoldable pub current_inputs : FleetGraph V → Parsed → List String
  current_inputs g t =
      if t.kind == "c"
      then component_inputs g t.id
      else if t.kind == "s"
      then stage_inputs g t.id
      else route_sources g t.id

  abbrev pub nothing : FleetGraph V → Outcome V
  nothing g = record { graph = g; sent = []; hint = none; reload = false }

  abbrev pub flash : FleetGraph V → String → Outcome V
  flash g msg = record { graph = g; sent = []; hint = some msg; reload = false }

  -- One awaited write inside the `try` of `onConnect`: the snapshot is patched after a success.
  abbrev pub write : (Update → Bool) → FleetGraph V → Update → FleetGraph V → Outcome V
  write accepts g u patched =
      if accepts u
      then record { graph = patched; sent = u ∷ []; hint = none; reload = true }
      else record { graph = g; sent = u ∷ []; hint = some "Wiring failed."; reload = true }

  unfoldable pub src_is_upstream : FleetGraph V → Parsed → Bool
  src_is_upstream g s = (s.kind == "c" && is_source (component_kind g s.id)) || s.kind == "s"

  -- What `onConnect` does after its guards.
  unfoldable pub wire : (Update → Bool) → FleetGraph V → Parsed → Parsed → List String → Outcome V
  wire accepts g s t next =
      if t.kind == "c" && is_sink (component_kind g t.id)
      then (if not (src_is_upstream g s)
          then flash g "Wire a route to a sink in the route editor."
          else write accepts g (set_component_inputs t.id next) (patch_sink_inputs t.id next g))
      else if t.kind == "s"
      then (if not (src_is_upstream g s)
          then flash g "A remap reads from sources or other remaps."
          else write accepts g (set_stage_inputs t.id next) (patch_stage_inputs t.id next g))
      else if t.kind == "r"
      then (if not (src_is_upstream g s)
          then flash g "A route reads from sources or remaps."
          else write accepts g (set_route_sources t.id next) (patch_route_sources t.id next g))
      else flash g "That target has no inputs."

  unfoldable pub on_connect : (Update → Bool) → Bool → FleetGraph V → String → String → Outcome V
  on_connect accepts editable g source target =
      let s = parse_node_id source in
      let t = parse_node_id target in
      let current = current_inputs g t in
      if not editable || source == "" || target == "" || source == target
      then nothing g
      else if has current s.id
      then nothing g
      else if would_cycle g.stages s.id t.id
      then flash g "That would create a cycle."
      else wire accepts g s t (uniq (current ++ s.id ∷ []))
