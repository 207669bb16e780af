-- ===== src/ConfigForm/Saving.antt =====
-- frontend/src/components/catalog/ComponentConfigForm.tsx: how the form is opened, the preview and the save, and whatever may
-- happen to a form.
use vortex_flow.Common.{
  String, true, false, not, ◌&&◌, ◌||◌, Option, none, some, List, [], ◌∷◌, Dict, get, insert,
  if◌then◌else◌,
}
use vortex_flow.Types.{User, Fleet, Component}
use vortex_flow.Catalog.{
  CatalogComponent, CatalogField, Value, text, JsNumbers, coerce_field_values,
}
use vortex_flow.Catalog.Form.{show_default, values_from_config}
use vortex_flow.Catalog.Preview.{ConfigKind, generate_yaml}
use vortex_flow.CatalogGen.Texts.{take_text}
use vortex_flow.CatalogGen.Nodes.{is_nil}
use vortex_flow.ConfigForm.State.{
  CertRefs, ConfigFormState, SaveRequest, or_fallback, clean_refs, can_edit, is_saving, is_there,
  kind_of, idle, saving, update_component, create_component,
}
use vortex_flow.ConfigForm.Inputs.{
  missing_required, touch_all, pick_identity, pick_ca, edit_field, set_name, on_saved, on_failed,
  on_saved_timer, on_failed_timer,
}

-- What happens to a form: an input of the user, an answer of the server, or a timer.
pub data FormAct (N : Type 0) : Type 0 where
  edits : CatalogField N → String → FormAct N
  renames picks_identity picks_ca writes_raw : String → FormAct N
  toggles_raw saves answers saved_timer failed_timer : FormAct N
  fails : Option String → FormAct N

module _ {N : Type 0} (js : JsNumbers N) (json : String → String) (kind : ConfigKind)
    (component : CatalogComponent N) (existing : Option (Component (Value N))) where
  unfoldable pub default_values : List (CatalogField N) → Dict (Value N) → Dict (Value N)
  default_values [] init = init
  default_values (f ∷ fs) init =
      default_values fs (insert f.key (text (show_default js f.default)) init)

  abbrev pub first_name : Option (Component (Value N)) → String
  first_name none = take_text 20 component.component_type
  first_name (some c) = c.name

  abbrev pub first_values : Option (Component (Value N)) → Dict (Value N)
  first_values none = default_values component.fields []
  first_values (some c) = values_from_config js component c.config

  abbrev pub first_refs : Option (Component (Value N)) → CertRefs
  first_refs none = record { identity = none; ca = none }
  first_refs (some c) = record { identity = get "identity" c.cert_refs; ca = get "ca" c.cert_refs }

  unfoldable pub open_form : ConfigFormState N
  open_form = record {
    name = first_name existing;
    values = first_values existing;
    raw_mode = false;
    raw_yaml = "";
    save_state = idle;
    save_error = none;
    touched = [];
    cert_refs = first_refs existing;
  }

  unfoldable pub toggle_raw : ConfigFormState N → ConfigFormState N
  toggle_raw s = if s.raw_mode then record s { raw_mode = false } else record s {
    raw_yaml =
        generate_yaml js json kind component s.values (or_fallback s.name component.component_type);
    raw_mode = true;
  }

  abbrev pub request_of : Option (Component (Value N)) → Fleet → ConfigFormState N → SaveRequest N
  request_of none fleet s =
      create_component fleet.id (kind_of kind) (or_fallback s.name component.component_type)
        component.component_type (coerce_field_values js component s.values)
        (clean_refs s.cert_refs)
  request_of (some c) fleet s =
      update_component c.id (or_fallback s.name component.component_type)
        (coerce_field_values js component s.values) (clean_refs s.cert_refs)

  -- `saveToFleet`, up to its request.
  unfoldable pub save_to_fleet :
      Option Fleet → ConfigFormState N → ConfigFormState N × Option (SaveRequest N)
  save_to_fleet none s = (s, none)
  save_to_fleet (some fleet) s =
      let seen = record s { touched = touch_all component.fields [] } in
      if not (is_nil (missing_required component.fields s.values)) then (seen, none) else (
        record seen { save_state = saving; save_error = none },
        some (request_of existing fleet s),
      )

  -- The button, which is there for editors and disabled where nothing can be saved.
  unfoldable pub press_save :
      Option User → Option Fleet → ConfigFormState N → ConfigFormState N × Option (SaveRequest N)
  press_save user fleet s =
      if can_edit user && not (not (is_there fleet) || (is_saving s.save_state || s.raw_mode))
      then save_to_fleet fleet s
      else (s, none)

  unfoldable pub on_form_act :
      Option User → Option Fleet → FormAct N → ConfigFormState N → ConfigFormState N
  on_form_act user fleet (edits f v) s = edit_field f v s
  on_form_act user fleet (renames v) s = set_name v s
  on_form_act user fleet (picks_identity id) s = pick_identity id s
  on_form_act user fleet (picks_ca id) s = pick_ca id s
  on_form_act user fleet (writes_raw v) s = record s { raw_yaml = v }
  on_form_act user fleet toggles_raw s = toggle_raw s
  on_form_act user fleet saves s = (press_save user fleet s).0
  on_form_act user fleet answers s = on_saved s
  on_form_act user fleet (fails detail) s = on_failed detail s
  on_form_act user fleet saved_timer s = on_saved_timer s
  on_form_act user fleet failed_timer s = on_failed_timer s

  -- The first of the list happens last.
  unfoldable pub on_form_acts :
      Option User → Option Fleet → List (FormAct N) → ConfigFormState N → ConfigFormState N
  on_form_acts user fleet [] s = s
  on_form_acts user fleet (a ∷ acts) s = on_form_act user fleet a (on_form_acts user fleet acts s)
