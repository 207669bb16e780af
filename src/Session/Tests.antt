-- ===== src/Session/Tests.antt =====
-- The session on small inputs.
use vortex_flow.Common.{
  ℕ, String, Bool, true, false, Option, none, some, List, [], ◌∷◌, ◌++◌, ◌≡◌, ◌↔◌, ◌⊎◌, refl, In,
  if◌then◌else◌,
}
use vortex_flow.Types.{Fleet}
use vortex_flow.Session.{
  DeleteError, plain, deleted, delete_guarded, choose_fleet, Sides, LoadEvent, schema, failed,
  starts, arrives, first_state, load_run,
}
use vortex_flow.Session.Loads.{last_version, load_run_failed}
use vortex_flow.Session.Choice.{IsChoice, choose_fleet-IsChoice}
use vortex_flow.Session.Deletes.{IsAgreed, delete_guarded-IsAgreed}

abbrev fleet : String → Bool → Fleet
fleet id is_default = record {
  id = id;
  name = id;
  description = none;
  is_default = is_default;
  generation = 1;
  desired_vector_version = none;
  created_by = none;
  created_at = "";
  updated_at = "";
}

choose_fleet-IsChoice_example :
    (f : Fleet) × ((choose_fleet (some "b") (fleet "a" true ∷ fleet "b" false ∷ []) ≡ some f)
      × IsChoice (some "b") (fleet "a" true ∷ fleet "b" false ∷ []) f)
choose_fleet-IsChoice_example =
    choose_fleet-IsChoice (some "b") (fleet "a" true) (fleet "b" false ∷ [])

abbrev in_use : Bool → Option DeleteError
in_use force =
    if force then none else some (record { status = some 409; detail = plain "In use by r." })

abbrev agree : String → Bool
agree message = true

delete_guarded-IsAgreed_example :
    (In true (delete_guarded in_use agree).1 ↔ IsAgreed in_use agree)
    × (((delete_guarded in_use agree).0 ≡ deleted)
        ↔ ((in_use false ≡ none) ⊎ (IsAgreed in_use agree × (in_use true ≡ none))))
delete_guarded-IsAgreed_example = delete_guarded-IsAgreed in_use agree

abbrev empty : Sides ℕ
empty = ([], [])

abbrev one_load : List (LoadEvent ℕ)
one_load = arrives (schema (some "0.40") empty) ∷ starts ∷ []

load_run_failed_example :
    ((load_run empty empty (first_state empty empty) (one_load ++ (arrives failed ∷ []))).catalog
      ≡ empty)
    × ((load_run empty empty (first_state empty empty) (one_load ++ (arrives failed ∷ []))).live
        ≡ false)
    × ((load_run empty empty
          (first_state empty empty)
          (one_load ++ (arrives failed ∷ []))).vector_version
        ≡ last_version one_load none)
load_run_failed_example = load_run_failed empty empty one_load

last_version_kept : last_version one_load none ≡ some "0.40"
last_version_kept = refl
