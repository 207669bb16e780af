-- ===== src/StageEditor.antt =====
-- frontend/src/components/transforms/StageEditor.tsx: the form of a remap stage, the inputs that it
-- offers, and what a save sends.
pub mod Unchanged
pub mod Cyclic
mod Tests
use vortex_flow.Common.{
  String, Bool, true, false, not, ◌&&◌, ◌==◌, Option, none, some, List, [], ◌∷◌, ◌++◌, map, filter,
  has, if◌then◌else◌, trim,
}
use vortex_flow.Session.{DeleteError, DeleteResult, deleted, cancelled, thrown, delete_guarded}
use vortex_flow.Types.{StageMode, inline, library, TransformStage, Component}

abbrev pub default_vrl : String
default_vrl = ". = parse_json!(.message)\n"

pub record StageForm : Type 0 where
  pub name : String
  pub mode : StageMode
  pub source_vrl : String
  pub transform_id : String
  pub inputs : List String

abbrev pub empty_stage_form : StageForm
empty_stage_form = record {
  name = "";
  mode = inline;
  source_vrl = default_vrl;
  transform_id = "";
  inputs = [];
}

-- `o ?? fallback`
abbrev pub or_default : Option String → String → String
or_default none fallback = fallback
or_default (some s) fallback = s

unfoldable pub form_from_stage : TransformStage → StageForm
form_from_stage s = record {
  name = s.name;
  mode = s.mode;
  source_vrl = or_default s.source_vrl default_vrl;
  transform_id = or_default s.transform_id "";
  inputs = s.inputs;
}

-- The form at first, of a new stage or a stored one.
abbrev pub first_form : Option TransformStage → StageForm
first_form none = empty_stage_form
first_form (some s) = form_from_stage s

unfoldable pub toggle_input : String → StageForm → StageForm
toggle_input id f =
    if has f.inputs id
    then record f { inputs = filter (λ x. not (x == id)) f.inputs }
    else record f { inputs = f.inputs ++ (id ∷ []) }

abbrev pub is_other : Option TransformStage → TransformStage → Bool
is_other none s = true
is_other (some stage) s = not (s.id == stage.id)

-- The ids of `inputOptions`.
unfoldable pub input_options :
    {V : Type 0} → Option TransformStage → List (Component V) → List TransformStage → List String
input_options stage sources stages =
    map (λ c. c.id) sources ++ map (λ s. s.id) (filter (is_other stage) stages)

abbrev pub is_inline : StageMode → Bool
is_inline inline = true
is_inline library = false

-- `payload`; what is undefined is not sent.
pub record StagePayload : Type 0 where
  pub name : String
  pub mode : StageMode
  pub source_vrl : Option String
  pub transform_id : Option String
  pub inputs : List String

pub data StageRequest : Type 0 where
  create_stage : String → StagePayload → StageRequest
  update_stage : String → StagePayload → StageRequest

unfoldable pub payload_of : StageForm → StagePayload
payload_of f = record {
  name = trim f.name;
  mode = f.mode;
  source_vrl = if is_inline f.mode then some f.source_vrl else none;
  transform_id = if is_inline f.mode then none else some f.transform_id;
  inputs = f.inputs;
}

-- The error that a save shows before it sends anything.
unfoldable pub form_error : StageForm → Option String
form_error f =
    if trim f.name == ""
    then some "Name is required"
    else if is_inline f.mode && trim f.source_vrl == ""
    then some "VRL is required"
    else if not (is_inline f.mode) && f.transform_id == ""
    then some "Pick a library transform"
    else none

abbrev pub request_to : String → Option TransformStage → StagePayload → StageRequest
request_to fleet_id none payload = create_stage fleet_id payload
request_to fleet_id (some s) payload = update_stage s.id payload

-- `save`, up to its request.
abbrev pub request_unless : Option String → StageRequest → Option StageRequest
request_unless none request = some request
request_unless (some message) request = none

unfoldable pub save_stage : String → Option TransformStage → StageForm → Option StageRequest
save_stage fleet_id stage f =
    request_unless (form_error f) (request_to fleet_id stage (payload_of f))

-- `remove`: whether the stage is reported as deleted, and the force flags of the requests that are sent.
abbrev pub is_removed : DeleteResult → Bool
is_removed deleted = true
is_removed cancelled = false
is_removed (thrown e) = false

unfoldable pub remove_stage :
    Option TransformStage → (Bool → Option DeleteError) → (String → Bool) → Bool × List Bool
remove_stage none call confirm = (false, [])
remove_stage (some s) call confirm =
    if confirm "Delete this remap?"
    then (is_removed (delete_guarded call confirm).0, (delete_guarded call confirm).1)
    else (false, [])
