-- ===== src/Channels.antt =====
-- frontend/src/components/settings/NotificationsTab.tsx: the form of a notification channel.
-- `N` and `Ints` stand for the numbers of JavaScript with `parseInt`, `H` and `parse_json` for
-- `JSON.parse` of the headers. A stored config holds the values of Catalog.
pub mod Recipients
pub mod Payload
pub mod Restored
mod Tests
use vortex_flow.Common.{
  ℕ, String, Bool, true, false, Option, none, some, List, [], ◌∷◌, map, not, ◌==◌, ◌||◌, ◌&&◌,
  if◌then◌else◌, filter, Dict, get, split, join, trim,
}
use vortex_flow.Catalog.{
  Value, missing, null_value, text, flag, number, items, JsNumbers, or_missing, value_at,
}
use vortex_flow.Catalog.Form.{show_value}

pub data ChannelType : Type 0 where
  webhook slack teams email : ChannelType

pub data Severity : Type 0 where
  warning critical : Severity

pub record NotificationChannel (N : Type 0) : Type 0 where
  pub id : String
  pub channel_type : ChannelType
  pub name : String
  pub enabled : Bool
  pub config : Dict (Value N)
  pub has_secret : Bool
  pub min_severity : Severity
  pub notify_on_resolve : Bool
  pub last_success_at : Option String
  pub last_attempt_at : Option String
  pub last_error : Option String
  pub created_at : String

-- What is kept apart from the config: nothing, a password, or the URL of a hook with its headers.
pub data Secret (H : Type 0) : Type 0 where
  no_secret : Secret H
  password_only : String → Secret H
  url_secret : String → Option H → Secret H

pub record ChannelInput (N H : Type 0) : Type 0 where
  pub channel_type : ChannelType
  pub name : String
  pub enabled : Bool
  pub config : Dict (Value N)
  pub secret : Secret H
  pub min_severity : Severity
  pub notify_on_resolve : Bool

pub record FormState : Type 0 where
  pub channel_type : ChannelType
  pub name : String
  pub enabled : Bool
  pub min_severity : Severity
  pub notify_on_resolve : Bool
  pub url : String
  pub headers : String
  pub host : String
  pub port : String
  pub use_tls : Bool
  pub from_addr : String
  pub to_addrs : String
  pub username : String
  pub password : String

abbrev pub empty_form : FormState
empty_form = record {
  channel_type = webhook;
  name = "";
  enabled = true;
  min_severity = warning;
  notify_on_resolve = true;
  url = "";
  headers = "";
  host = "";
  port = "587";
  use_tls = true;
  from_addr = "";
  to_addrs = "";
  username = "";
  password = "";
}

-- `parseInt(s)`, whether a number counts as false, and a number that is written in the source.
pub record Ints (N : Type 0) : Type 0 where
  pub parse_int : String → N
  pub is_falsy : N → Bool
  pub literal : ℕ → N

pub data BuildResult (N H : Type 0) : Type 0 where
  input : ChannelInput N H → BuildResult N H
  error : String → BuildResult N H

module _ {N : Type 0} (js : JsNumbers N) where
  -- `String(v ?? fallback)`
  abbrev pub string_or : String → Value N → String
  string_or fallback missing = fallback
  string_or fallback null_value = fallback
  string_or fallback (text s) = s
  string_or fallback (flag b) = show_value js (flag b)
  string_or fallback (number n) = js.show_number n
  string_or fallback (items xs) = show_value js (items xs)

  -- `v !== false`
  abbrev pub is_not_false : Value N → Bool
  is_not_false missing = true
  is_not_false null_value = true
  is_not_false (text s) = true
  is_not_false (flag b) = b
  is_not_false (number n) = true
  is_not_false (items xs) = true

  abbrev pub recipients_text : Value N → String
  recipients_text missing = ""
  recipients_text null_value = ""
  recipients_text (text s) = ""
  recipients_text (flag b) = ""
  recipients_text (number n) = ""
  recipients_text (items xs) = join ", " xs

  unfoldable pub form_from_channel : NotificationChannel N → FormState
  form_from_channel c = record empty_form {
    channel_type = c.channel_type;
    name = c.name;
    enabled = c.enabled;
    min_severity = c.min_severity;
    notify_on_resolve = c.notify_on_resolve;
    host = string_or "" (value_at c.config "host");
    port = string_or "587" (value_at c.config "port");
    use_tls = is_not_false (value_at c.config "use_tls");
    from_addr = string_or "" (value_at c.config "from_addr");
    to_addrs = recipients_text (value_at c.config "to_addrs");
    username = string_or "" (value_at c.config "username");
  }

-- `f.to_addrs.split(',').map((s) => s.trim()).filter(Boolean)`
unfoldable pub recipients : String → List String
recipients s = filter (λ a. not (a == "")) (map trim (split "," s))

-- `s || undefined`
abbrev pub text_or_missing : {N : Type 0} → String → Value N
text_or_missing s = if s == "" then missing else text s

module _ {N H : Type 0} (ints : Ints N) (parse_json : String → Option H) where
  abbrev pub port_of : String → N
  port_of s = let n = ints.parse_int s in if ints.is_falsy n then ints.literal 587 else n

  abbrev pub with_parts : FormState → Dict (Value N) → Secret H → BuildResult N H
  with_parts f config secret = input (record {
    channel_type = f.channel_type;
    name = trim f.name;
    enabled = f.enabled;
    config = config;
    secret = secret;
    min_severity = f.min_severity;
    notify_on_resolve = f.notify_on_resolve;
  })

  abbrev pub email_config : FormState → Dict (Value N)
  email_config f =
      ("host", text (trim f.host))
      ∷ ("port", number (port_of f.port))
      ∷ ("use_tls", flag f.use_tls)
      ∷ ("from_addr", text (trim f.from_addr))
      ∷ ("to_addrs", items (recipients f.to_addrs))
      ∷ ("username", text_or_missing (trim f.username))
      ∷ []

  unfoldable pub build_email : FormState → BuildResult N H
  build_email f =
      if trim f.host == "" || (trim f.from_addr == "" || trim f.to_addrs == "")
      then error "Email needs host, from address, and at least one recipient"
      else with_parts f (email_config f)
          (if f.password == "" then no_secret else password_only f.password)

  abbrev pub with_headers : FormState → Option H → BuildResult N H
  with_headers f none = error "Headers must be valid JSON"
  with_headers f (some h) = with_parts f [] (url_secret (trim f.url) (some h))

  unfoldable pub build_hook : FormState → Bool → BuildResult N H
  build_hook f takes_headers =
      if trim f.url == ""
      then with_parts f [] no_secret
      else if takes_headers && not (trim f.headers == "")
      then with_headers f (parse_json f.headers)
      else with_parts f [] (url_secret (trim f.url) none)

  abbrev pub build_typed : ChannelType → FormState → BuildResult N H
  build_typed webhook f = build_hook f true
  build_typed slack f = build_hook f false
  build_typed teams f = build_hook f false
  build_typed email f = build_email f

  unfoldable pub build_payload : FormState → BuildResult N H
  build_payload f =
      if trim f.name == "" then error "Name is required" else build_typed f.channel_type f
