-- ===== src/Canvas/Insert.antt =====
-- `insertRemap` of frontend/src/components/topology/FleetTopologyCanvas.tsx: a new remap stage is
-- spliced into an edge.
use vortex_flow.Common.{
  String, Bool, true, false, Option, none, some, List, [], ◌∷◌, map, ◌≡◌, ◌≢◌, not, ◌==◌, ◌||◌,
  ◌&&◌, if◌then◌else◌, has, trim, arith, eq_iff, length, length-map,
}
use vortex_flow.Wiring.{FleetGraph}
use vortex_flow.Canvas.{
  Parsed, parse_node_id, Update, set_component_inputs, set_stage_inputs, set_route_sources,
  create_stage, Outcome, nothing, flash, current_inputs,
}

-- The answer to the request that creates the stage: an id, if the body has one, or an error.
pub data CreateReply : Type 0 where
  created : Option String → CreateReply
  rejected : CreateReply

-- `currentInputs.map((i) => (i === srcId ? stageId : i))`
unfoldable pub splice : String → String → List String → List String
splice src stage ids = map (λ i. if i == src then stage else i) ids

-- The write for a target, whatever its kind.
unfoldable pub set_inputs : Parsed → List String → Update
set_inputs t next =
    if t.kind == "c"
    then set_component_inputs t.id next
    else if t.kind == "s"
    then set_stage_inputs t.id next
    else set_route_sources t.id next

module _ {V : Type 0} (create : Update → CreateReply) (accepts : Update → Bool) where
  abbrev pub failed_after : FleetGraph V → List Update → Outcome V
  failed_after g sent = record {
    graph = g;
    sent = sent;
    hint = some "Insert failed.";
    reload = true;
  }

  -- What follows the answer of the server; an empty id counts as none.
  unfoldable pub insert_into : FleetGraph V → Update → Parsed → String → CreateReply → Outcome V
  insert_into g new t src rejected = failed_after g (new ∷ [])
  insert_into g new t src (created none) = failed_after g (new ∷ [])
  insert_into g new t src (created (some stage)) =
      let u = set_inputs t (splice src stage (current_inputs g t)) in
      if stage == ""
      then failed_after g (new ∷ [])
      else if accepts u
      then record { graph = g; sent = new ∷ u ∷ []; hint = none; reload = true }
      else failed_after g (new ∷ u ∷ [])

  unfoldable pub insert_remap : Bool → FleetGraph V → String → String → String → String → Outcome V
  insert_remap editable g source target name vrl =
      let src = (parse_node_id source).id in
      let t = parse_node_id target in
      let new = create_stage (trim name) vrl (src ∷ []) in
      if not editable
      then nothing g
      else if not (has (current_inputs g t) src)
      then flash g "That edge is out of date — reopen the canvas and retry."
      else insert_into g new t src (create new)

-- The spliced inputs read the stage where they read the source, and all else as before.
has-splice :
    (src stage b : String) (ids : List String)
    → src ≢ stage
    → has (splice src stage ids) b
      ≡ (if b == src then false else (b == stage && has ids src) || has ids b)
unfolding splice
has-splice src stage b [] ne = ground arith
has-splice src stage b (x ∷ ids) ne = ground (
  arith,
  has-splice src stage b ids ne,
  eq_iff x src,
  eq_iff x b,
  eq_iff b src,
  eq_iff b stage,
  eq_iff stage b,
  eq_iff src b,
)

length-splice :
    (src stage : String) (ids : List String) → length (splice src stage ids) ≡ length ids
unfolding splice
length-splice src stage ids = length-map _ ids

module _ {V : Type 0} (create : Update → CreateReply) (accepts : Update → Bool) where
  -- Where the target reads the source and the server creates the stage, two writes are sent: the
  -- stage, reading the source, and then as many inputs for the target as it had, with the stage in
  -- place of the source and all other ids as before.
  pub insert_remap_splices :
      (g : FleetGraph V) (source target name vrl stage : String)
      → has (current_inputs g (parse_node_id target)) (parse_node_id source).id ≡ true
      → create (create_stage (trim name) vrl ((parse_node_id source).id ∷ []))
        ≡ created (some stage)
      → stage ≢ ""
      → (parse_node_id source).id ≢ stage
      → (next : List String) × ((insert_remap create accepts true g source target name vrl).sent
          ≡ create_stage (trim name) vrl ((parse_node_id source).id ∷ [])
            ∷ set_inputs (parse_node_id target) next
            ∷ [])
        × (length next ≡ length (current_inputs g (parse_node_id target)))
        × ((b : String)
            → has next b ≡ (
                if b == (parse_node_id source).id
                then false
                else b == stage || has (current_inputs g (parse_node_id target)) b))
  unfolding insert_remap insert_into
  insert_remap_splices g source target name vrl stage there made ne fresh =
      let src = (parse_node_id source).id in
      let current = current_inputs g (parse_node_id target) in
      (
        splice src stage current,
        ground (arith, eq_iff stage ""),
        length-splice src stage current,
        λ b. ground (arith, has-splice src stage b current fresh),
      )
