-- ===== src/FleetTopology/Names.antt =====
-- The ids of the drawn nodes and `parseNodeId` of the canvas agree.
use vortex_flow.Common.{
  char-append, String, ◌≡◌, ap, ◌∙◌, split, ◌∷ᶜ◌, ◌+s◌, join-split, cons-append,
}
use Prim.Native.Char.{Char}
use vortex_flow.Canvas.{Parsed, parse_node_id}
use vortex_flow.FleetTopology.{comp_node_id, route_node_id, stage_node_id}

tagged : (t : Char) (id : String) → (t ∷ᶜ ":") +s id ≡ t ∷ᶜ (":" ∷ᶜ id)
tagged t id = cons-append t ":" id ∙ ap (λ s. t ∷ᶜ s) (char-append ":" id)

abbrev parsed : String → String → Parsed
parsed kind id = record { kind = kind; id = id }

pub parse_node_id-comp_node_id : (id : String) → parse_node_id (comp_node_id id) ≡ parsed "c" id
unfolding parse_node_id comp_node_id split
parse_node_id-comp_node_id id = rw (tagged "c" id) (ap (parsed "c") (join-split ":" id))

pub parse_node_id-stage_node_id : (id : String) → parse_node_id (stage_node_id id) ≡ parsed "s" id
unfolding parse_node_id stage_node_id split
parse_node_id-stage_node_id id = rw (tagged "s" id) (ap (parsed "s") (join-split ":" id))

pub parse_node_id-route_node_id : (id : String) → parse_node_id (route_node_id id) ≡ parsed "r" id
unfolding parse_node_id route_node_id split
parse_node_id-route_node_id id = rw (tagged "r" id) (ap (parsed "r") (join-split ":" id))
