-- ===== src/StageEditor/Tests.antt =====
-- The editor on two stages, of which one reads the other.
use vortex_flow.Common.{
  String, true, none, some, List, [], ◌∷◌, ◌≡◌, refl, at_head, later, has, get, map_of, insert,
  trim, trim_start, trim_end, is_space,
}
use vortex_flow.Types.{TransformStage, inline, Component}
use vortex_flow.Canvas.Cycle.{would_cycle, inputs_of, cycle_search, search_from}
use vortex_flow.Canvas.Cycle.Correct.{Reads}
use vortex_flow.StageEditor.{
  StagePayload, form_from_stage, toggle_input, input_options, payload_of, form_error, save_stage,
  update_stage,
}
use vortex_flow.StageEditor.Unchanged.{IsUnchanged, save_stage-IsUnchanged}
use vortex_flow.StageEditor.Cyclic.{save_stage_cyclic}

abbrev stage : String → List String → TransformStage
stage id inputs = record {
  id = id;
  fleet_id = "f";
  name = id;
  mode = inline;
  source_vrl = some ". = {}";
  transform_id = none;
  inputs = inputs;
  created_at = "";
  updated_at = "";
}

abbrev stages : List TransformStage
stages = stage "a" [] ∷ stage "b" ("a" ∷ []) ∷ []

abbrev no_sources : List (Component String)
no_sources = []

valid : form_error (form_from_stage (stage "a" [])) ≡ none
unfolding form_error form_from_stage trim trim_start trim_end is_space
valid = refl

closes : would_cycle stages "b" "a" ≡ true
unfolding would_cycle cycle_search search_from get map_of insert
closes = refl

save_stage_cyclic_example :
    (has (input_options (some (stage "a" [])) no_sources stages) "b" ≡ true)
    × (save_stage "f" (some (stage "a" [])) (toggle_input "b" (form_from_stage (stage "a" [])))
        ≡ some (update_stage "a" (payload_of (toggle_input "b" (form_from_stage (stage "a" []))))))
    × (has (payload_of (toggle_input "b" (form_from_stage (stage "a" [])))).inputs "b" ≡ true)
    × Reads (inputs_of stages) "a" "b"
save_stage_cyclic_example =
    save_stage_cyclic "f" (stage "a" []) (stage "b" ("a" ∷ [])) no_sources stages
      (later (at_head refl)) refl refl valid closes

save_stage-IsUnchanged_example :
    (p : StagePayload) × (save_stage "f"
        (some (stage "b" ("a" ∷ [])))
        (form_from_stage (stage "b" ("a" ∷ [])))
      ≡ some (update_stage "b" p))
    × IsUnchanged (stage "b" ("a" ∷ [])) p
unfolding trim trim_start trim_end is_space
save_stage-IsUnchanged_example = save_stage-IsUnchanged "f" (stage "b" ("a" ∷ [])) refl refl
