-- ===== src/ConfigForm/Tests.antt =====
-- The form on a component that requires the file of an authority.
use vortex_flow.Common.{
  ℕ, String, Bool, true, false, Option, none, some, List, [], ◌∷◌, ◌≡◌, refl, at_head, later, get,
  insert, nat_eq, show,
}
use vortex_flow.Types.{User, editor, Fleet, Component, source}
use vortex_flow.Catalog.{
  CatalogComponent, CatalogField, Value, missing, text, JsNumbers, string_field, value_at,
  coerce_field_values, coerce_from, kept_value, coerce,
}
use vortex_flow.Catalog.Form.{a_text, form_value, values_from, values_from_config}
use vortex_flow.Catalog.Preview.{sources}
use vortex_flow.ConfigForm.State.{
  SaveRequest, update_component, create_component, config_of, is_managed,
}
use vortex_flow.ConfigForm.Inputs.{missing_required, edit_field, pick_ca}
use vortex_flow.ConfigForm.Saving.{
  FormAct, edits, picks_ca, press_save, save_to_fleet, on_form_act, on_form_acts, open_form,
  default_values,
}
use vortex_flow.CatalogGen.Texts.{take_text}
use vortex_flow.ConfigForm.Managed.{is_clear, press_save_without_paths}
use vortex_flow.ConfigForm.Blocked.{press_save_blocked}
use vortex_flow.ConfigForm.Resaved.{press_save_unchanged}

abbrev js : JsNumbers ℕ
js = record { to_number = λ v. 0; is_same = nat_eq; show_number = show }

abbrev field : String → Bool → CatalogField ℕ
field key required = record {
  key = key;
  label = key;
  field_type = string_field;
  required = required;
  default = missing;
  placeholder = none;
  hint = none;
  options = [];
  group = none;
  generated = true;
}

abbrev endpoint : CatalogField ℕ
endpoint = field "endpoint" true

abbrev form_of : Bool → CatalogComponent ℕ
form_of required = record {
  component_type = "pulsar";
  name = "Pulsar";
  description = "";
  category = "Generated";
  fields = endpoint ∷ field "tls.ca_file" required ∷ [];
  generated = true;
}

abbrev ann : Option User
ann = some (record {
  id = "u";
  email = "a@b";
  name = "Ann";
  role = editor;
  auth_method = "local";
  is_active = true;
  created_at = "";
  must_change_password = none;
})

abbrev demo : Option Fleet
demo = some (record {
  id = "f";
  name = "f";
  description = none;
  is_default = true;
  generation = 1;
  desired_vector_version = none;
  created_by = none;
  created_at = "";
  updated_at = "";
})

-- A path is written, and then a stored certificate is chosen.
abbrev acts : List (FormAct ℕ)
acts = picks_ca "cert" ∷ edits (field "tls.ca_file" false) "/ca.pem" ∷ edits endpoint "host" ∷ []

abbrev sent : SaveRequest ℕ
sent =
    create_component "f" source "pulsar" "pulsar" (("endpoint", text "host") ∷ [])
      (("ca", "cert") ∷ [])

abbrev json : String → String
json s = s

is_sent :
    (press_save js json sources (form_of false) none ann demo (
      on_form_acts js json sources
        (form_of false)
        none
        ann
        demo
        acts
        (open_form js json sources (form_of false) none))).1
    ≡ some sent
unfolding press_save save_to_fleet open_form on_form_acts on_form_act edit_field pick_ca is_managed
    missing_required coerce_field_values coerce_from kept_value coerce value_at get insert
    default_values take_text
is_sent = refl

is_clear_first_optional :
    is_clear
      (open_form js json sources (form_of false) none).cert_refs
      (open_form js json sources (form_of false) none).values
    ≡ true
unfolding open_form
is_clear_first_optional = refl

ca_managed_optional :
    is_managed
      (on_form_acts js json sources
        (form_of false)
        none
        ann
        demo
        acts
        (open_form js json sources (form_of false) none)).cert_refs
      "tls.ca_file"
    ≡ true
unfolding open_form on_form_acts on_form_act edit_field pick_ca is_managed
ca_managed_optional = refl

press_save_without_paths_example : get "tls.ca_file" (config_of sent) ≡ none
press_save_without_paths_example =
    press_save_without_paths js json sources (form_of false) none ann demo acts sent "tls.ca_file"
      is_clear_first_optional is_sent ca_managed_optional

is_clear_first_required :
    is_clear
      (open_form js json sources (form_of true) none).cert_refs
      (open_form js json sources (form_of true) none).values
    ≡ true
unfolding open_form
is_clear_first_required = refl

ca_managed_required :
    is_managed
      (on_form_acts js json sources
        (form_of true)
        none
        ann
        demo
        acts
        (open_form js json sources (form_of true) none)).cert_refs
      "tls.ca_file"
    ≡ true
unfolding open_form on_form_acts on_form_act edit_field pick_ca is_managed
ca_managed_required = refl

press_save_blocked_example :
    (press_save js json sources (form_of true) none ann demo (
      on_form_acts js json sources
        (form_of true)
        none
        ann
        demo
        acts
        (open_form js json sources (form_of true) none))).1
    ≡ none
press_save_blocked_example =
    press_save_blocked js json sources (form_of true) none ann demo acts (field "tls.ca_file" true)
      is_clear_first_required (later (at_head refl)) refl ca_managed_required

abbrev stored : Component (Value ℕ)
stored = record {
  id = "c";
  fleet_id = "f";
  kind = source;
  name = "pulsar";
  component_type = "pulsar";
  config = ("endpoint", text "host") ∷ ("extra", text "kept?") ∷ [];
  inputs = [];
  cert_refs = [];
  created_by = none;
  created_at = "";
  updated_at = "";
}

abbrev resent : SaveRequest ℕ
resent = update_component "c" "pulsar" (("endpoint", text "host") ∷ []) []

is_resent :
    (press_save js json sources
      (form_of false)
      (some stored)
      ann
      demo
      (open_form js json sources (form_of false) (some stored))).1
    ≡ some resent
unfolding press_save save_to_fleet open_form missing_required coerce_field_values coerce_from
    kept_value coerce value_at get insert values_from_config values_from form_value
is_resent = refl

press_save_unchanged_example :
    (get "endpoint" (config_of resent) ≡ some (value_at stored.config "endpoint"))
    × (get "extra" (config_of resent) ≡ none)
unfolding value_at get insert values_from_config values_from form_value
press_save_unchanged_example =
    press_save_unchanged js json sources (form_of false) stored ann demo resent endpoint "extra"
      is_resent (refl, (refl, tt)) (at_head refl) (a_text "host") refl refl refl
