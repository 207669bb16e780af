-- ===== src/StageEditor/Cyclic.antt =====
-- The editor makes the cycles that the canvas refuses.
use vortex_flow.Common.{
  String, true, false, not, ◌==◌, none, some, List, [], ◌∷◌, map, filter, has, has-append, ◌≡◌,
  refl, arith, eq_refl, In, has-In, In-map, In-filter,
}
use vortex_flow.Types.{TransformStage, Component}
use vortex_flow.Canvas.Cycle.{would_cycle, inputs_of}
use vortex_flow.Canvas.Cycle.Correct.{Reads, would_cycle_iff}
use vortex_flow.StageEditor.{
  StageForm, form_from_stage, toggle_input, input_options, is_other, payload_of, form_error,
  save_stage, update_stage,
}

toggle_input-has :
    (id : String) (f : StageForm)
    → has f.inputs id ≡ false
    → has (toggle_input id f).inputs id ≡ true
unfolding toggle_input
toggle_input-has id f h = rw h (ground (arith, has-append f.inputs (id ∷ []) id, eq_refl id))

toggle_input-error : (id : String) (f : StageForm) → form_error (toggle_input id f) ≡ form_error f
unfolding toggle_input form_error
toggle_input-error id f = ground arith

-- Let another stage of the list be one that the canvas refuses to let a stage read, since that would
-- close a cycle; let it not be among the inputs of the stage yet, and let the form of the stage be valid
-- as it is opened. Then the editor of the stage offers the other one; and where it is chosen, a save
-- sends it among the inputs, although the other one reads the stage through a chain of stages.
pub save_stage_cyclic :
    {V : Type 0} (fleet_id : String) (stage other : TransformStage) (sources : List (Component V))
    (stages : List TransformStage)
    → In other stages
    → (other.id == stage.id) ≡ false
    → has stage.inputs other.id ≡ false
    → form_error (form_from_stage stage) ≡ none
    → would_cycle stages other.id stage.id ≡ true
    → (has (input_options (some stage) sources stages) other.id ≡ true)
      × (save_stage fleet_id (some stage) (toggle_input other.id (form_from_stage stage))
          ≡ some
              (update_stage stage.id (payload_of (toggle_input other.id (form_from_stage stage)))))
      × (has (payload_of (toggle_input other.id (form_from_stage stage))).inputs other.id ≡ true)
      × Reads (inputs_of stages) stage.id other.id
unfolding input_options save_stage payload_of form_from_stage
save_stage_cyclic fleet_id stage other sources stages at apart fresh valid cycle =
    let kept : not (other.id == stage.id) ≡ true = ground arith in
    let offered =
      has-In (map (λ s. s.id) (filter (is_other (some stage)) stages))
        (In-map (λ s. s.id) _ (In-filter (is_other (some stage)) stages at kept)) in
    (
      ground (
        arith,
        has-append (map (λ c. c.id) sources)
            (map (λ s. s.id) (filter (is_other (some stage)) stages)) other.id,
        offered,
      ),
      rw (toggle_input-error other.id (form_from_stage stage), valid) refl,
      toggle_input-has other.id (form_from_stage stage) fresh,
      (would_cycle_iff stages other.id stage.id).1.0 cycle,
    )
