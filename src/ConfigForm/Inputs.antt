-- ===== src/ConfigForm/Inputs.antt =====
-- frontend/src/components/catalog/ComponentConfigForm.tsx: what the inputs of the form, and the answers and timers of a save, do
-- to its state. `values` holds texts.
use vortex_flow.Common.{
  String, Bool, true, false, not, ◌&&◌, ◌==◌, Option, none, some, List, [], ◌∷◌, map, filter, Dict,
  insert, if◌then◌else◌, lower, underscored,
}
use vortex_flow.Catalog.{
  CatalogField, Value, missing, null_value, text, flag, number, items, value_at,
}
use vortex_flow.ConfigForm.State.{
  ConfigFormState, identity_fields, ca_fields, or_unset, is_managed, or_message, idle, saved,
  failed,
}

module _ {N : Type 0} where
  -- `!v`, on a text or nothing
  abbrev pub is_unset : Value N → Bool
  is_unset missing = true
  is_unset null_value = true
  is_unset (text s) = s == ""
  is_unset (flag b) = not b
  is_unset (number n) = false
  is_unset (items xs) = false

  unfoldable pub missing_required : List (CatalogField N) → Dict (Value N) → List String
  missing_required fields values =
      map (λ f. f.key) (filter (λ f. f.required && is_unset (value_at values f.key)) fields)

  abbrev pub touch_all : List (CatalogField N) → Dict Bool → Dict Bool
  touch_all [] touched = touched
  touch_all (f ∷ fs) touched = touch_all fs (insert f.key true touched)

  abbrev pub empty_keys : List String → Dict (Value N) → Dict (Value N)
  empty_keys [] values = values
  empty_keys (k ∷ ks) values = empty_keys ks (insert k (text "") values)

  -- The choice of a certificate, for a key and for the authority.
  unfoldable pub pick_identity : String → ConfigFormState N → ConfigFormState N
  pick_identity id s = record s {
    cert_refs = record { identity = or_unset id; ca = s.cert_refs.ca };
    values = if id == "" then s.values else empty_keys identity_fields s.values;
  }

  unfoldable pub pick_ca : String → ConfigFormState N → ConfigFormState N
  pick_ca id s = record s {
    cert_refs = record { identity = s.cert_refs.identity; ca = or_unset id };
    values = if id == "" then s.values else empty_keys ca_fields s.values;
  }

  -- A change in the input of a field, which is not there while the field is managed.
  unfoldable pub edit_field : CatalogField N → String → ConfigFormState N → ConfigFormState N
  edit_field f v s = if is_managed s.cert_refs f.key then s else record s {
    values = insert f.key (text v) s.values;
    touched = insert f.key true s.touched;
  }

  unfoldable pub set_name : String → ConfigFormState N → ConfigFormState N
  set_name v s = record s { name = lower (underscored v) }

  -- The answer to a save, and the timers that it sets.
  abbrev pub on_saved : ConfigFormState N → ConfigFormState N
  on_saved s = record s { save_state = saved }

  abbrev pub on_failed : Option String → ConfigFormState N → ConfigFormState N
  on_failed detail s = record s { save_state = failed; save_error = some (or_message detail) }

  abbrev pub on_saved_timer : ConfigFormState N → ConfigFormState N
  on_saved_timer s = record s { save_state = idle }

  abbrev pub on_failed_timer : ConfigFormState N → ConfigFormState N
  on_failed_timer s = record s { save_state = idle; save_error = none }
