-- ===== src/StageEditor/Unchanged.antt =====
-- A stored stage that is opened and saved with no change.
use vortex_flow.Common.{
  String, Bool, true, false, not, ◌==◌, Option, none, some, trim, ◌≡◌, refl, arith,
}
use vortex_flow.Types.{StageMode, inline, library, TransformStage}
use vortex_flow.StageEditor.{
  form_from_stage, StagePayload, payload_of, form_error, save_stage, update_stage,
}

-- The program of a stage, for the mode that it has.
abbrev pub program_of : StageMode → Option String → Option String → Option String
program_of inline source_vrl transform_id = source_vrl
program_of library source_vrl transform_id = transform_id

abbrev pub is_filled : StageMode → Option String → Bool
is_filled mode none = false
is_filled inline (some s) = not (trim s == "")
is_filled library (some s) = not (s == "")

-- What an update sends keeps the stage.
pub record IsUnchanged (s : TransformStage) (p : StagePayload) : Type 0 where
  pub same_name : p.name ≡ trim s.name
  pub same_mode : p.mode ≡ s.mode
  pub same_program :
      program_of p.mode p.source_vrl p.transform_id ≡ program_of s.mode s.source_vrl s.transform_id
  pub same_inputs : p.inputs ≡ s.inputs

valid_form :
    (s : TransformStage)
    → (trim s.name == "") ≡ false
    → is_filled s.mode (program_of s.mode s.source_vrl s.transform_id) ≡ true
    → form_error (form_from_stage s) ≡ none
unfolding form_error form_from_stage
valid_form s named filled = ground arith

kept_payload :
    (s : TransformStage)
    → is_filled s.mode (program_of s.mode s.source_vrl s.transform_id) ≡ true
    → IsUnchanged s (payload_of (form_from_stage s))
unfolding payload_of form_from_stage
kept_payload s filled = record {
  same_name = refl;
  same_mode = refl;
  same_program = ground arith;
  same_inputs = refl;
}

-- Where a stored stage has a name and a program of its mode, a save with no change sends one update of
-- it, with its name, trimmed, its mode, its program and its inputs.
pub save_stage-IsUnchanged :
    (fleet_id : String) (s : TransformStage)
    → (trim s.name == "") ≡ false
    → is_filled s.mode (program_of s.mode s.source_vrl s.transform_id) ≡ true
    → (p : StagePayload) × (save_stage fleet_id (some s) (form_from_stage s)
        ≡ some (update_stage s.id p))
      × IsUnchanged s p
unfolding save_stage
save_stage-IsUnchanged fleet_id s named filled =
    (payload_of (form_from_stage s), rw (valid_form s named filled) refl, kept_payload s filled)
