-- ===== src/Channels/Tests.antt =====
-- The form of a channel on small inputs; numbers are natural, and no text of headers is valid.
use vortex_flow.Common.{
  ℕ, String, true, false, Option, none, some, [], ◌∷◌, ◌≡◌, refl, nat_eq, show, Dict, split, trim,
  trim_start, trim_end, is_space, all, ◌==◌, includes,
}
use vortex_flow.Catalog.{Value, items, JsNumbers, value_at}
use vortex_flow.Channels.{
  email, warning, ChannelInput, NotificationChannel, FormState, Ints, empty_form, input,
  build_payload, build_hook, form_from_channel,
}
use vortex_flow.Channels.Payload.{config_of, build_payload_hides, build_payload_no_recipient}
use vortex_flow.Channels.Restored.{
  stored_config, IsStored, same_input, build_payload-form_from_channel,
}

abbrev ints : Ints ℕ
ints = record { parse_int = λ s. 25; is_falsy = λ n. nat_eq n 0; literal = λ n. n }

abbrev numbers : JsNumbers ℕ
numbers = record { to_number = λ v. 0; is_same = nat_eq; show_number = show }

abbrev no_json : String → Option ℕ
no_json s = none

abbrev hook : String → FormState
hook url = record empty_form { name = "h"; url = url }

hook_config : config_of (build_payload ints no_json (hook "u")) ≡ some []
unfolding build_payload build_hook trim trim_start trim_end is_space
hook_config = refl

other_config : config_of (build_payload ints no_json (hook "v")) ≡ some []
unfolding build_payload build_hook trim trim_start trim_end is_space
other_config = refl

build_payload_hides_example : ◌≡◌ {A = Dict (Value ℕ)} [] []
build_payload_hides_example =
    build_payload_hides ints no_json (hook "u") (hook "v") [] []
      (record {
        channel_type = refl;
        host = refl;
        port = refl;
        use_tls = refl;
        from_addr = refl;
        to_addrs = refl;
        username = refl;
      })
      hook_config other_config

abbrev commas : FormState
commas = record empty_form {
  channel_type = email;
  name = "m";
  host = "h";
  from_addr = "a";
  to_addrs = " , ";
}

solid_texts :
    ((trim "m" == "") ≡ false)
    × ((trim "h" == "") ≡ false)
    × ((trim "a" == "") ≡ false)
    × ((trim " , " == "") ≡ false)
unfolding trim trim_start trim_end is_space
solid_texts = (refl, refl, refl, refl)

blank_parts : all (λ p. trim p == "") (split "," " , ") ≡ true
unfolding split trim trim_start trim_end is_space
blank_parts = refl

build_payload_no_recipient_example :
    (i : ChannelInput ℕ ℕ) × (build_payload ints no_json commas ≡ input i)
    × (value_at i.config "to_addrs" ≡ items [])
build_payload_no_recipient_example =
    build_payload_no_recipient ints no_json commas refl solid_texts.0 solid_texts.1 solid_texts.2
      solid_texts.3 blank_parts

abbrev mail : NotificationChannel ℕ
mail = record {
  id = "1";
  channel_type = email;
  name = "m";
  enabled = true;
  config = stored_config "h" 25 true "a" ("b" ∷ "c" ∷ []) "";
  has_secret = true;
  min_severity = warning;
  notify_on_resolve = true;
  last_success_at = none;
  last_attempt_at = none;
  last_error = none;
  created_at = "";
}

mail-IsStored : IsStored numbers ints no_json mail
unfolding trim trim_start trim_end is_space includes
mail-IsStored = record {
  host = "h";
  port = 25;
  use_tls = true;
  from_addr = "a";
  first = "b";
  others = "c" ∷ [];
  username = "";
  kind = refl;
  config = refl;
  name_kept = refl;
  host_kept = refl;
  from_kept = refl;
  user_kept = refl;
  port_read = refl;
  port_counts = refl;
  addresses = refl;
}

build_payload-form_from_channel_example :
    build_payload ints no_json (form_from_channel numbers mail)
    ≡ input (same_input numbers ints no_json mail)
build_payload-form_from_channel_example =
    build_payload-form_from_channel numbers ints no_json mail mail-IsStored
