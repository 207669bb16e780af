-- ===== src/Channels/Restored.antt =====
-- A stored email channel that is opened and saved again stays as it is.
use vortex_flow.Common.{
  String, Bool, true, false, Option, List, [], ◌∷◌, not, all, ◌≡◌, refl, ap, sym, ◌∙◌, ◌==◌, ◌&&◌,
  join, trim, arith, Bool-cases, inl, inr, Dict, get, eq_of_test,
}
use vortex_flow.Catalog.{Value, text, flag, number, items, JsNumbers, value_at}
use vortex_flow.Channels.{
  email, no_secret, ChannelInput, NotificationChannel, FormState, Ints, input, empty_form,
  text_or_missing, string_or, email_config, form_from_channel, build_payload,
}
use vortex_flow.Channels.Recipients.{is_address, recipients-join, trim-join-ne-nil}
use vortex_flow.Channels.Payload.{build_payload_email}

-- A text as the form keeps it.
abbrev pub is_kept : String → Bool
is_kept s = not (s == "") && (trim s == s)

abbrev pub stored_config :
    {N : Type 0} → String → N → Bool → String → List String → String → Dict (Value N)
stored_config host port use_tls from_addr to_addrs username =
    ("host", text host)
    ∷ ("port", number port)
    ∷ ("use_tls", flag use_tls)
    ∷ ("from_addr", text from_addr)
    ∷ ("to_addrs", items to_addrs)
    ∷ ("username", text_or_missing username)
    ∷ []

is_kept-trim : (s : String) → is_kept s ≡ true → (trim s ≡ s) × ((trim s == "") ≡ false)
is_kept-trim s h =
    let same : trim s ≡ s = eq_of_test (trim s) s (ground arith) in (same, rw same (ground arith))

is_address-trim :
    (x : String) (xs : List String) → all is_address (x ∷ xs) ≡ true → (trim x == "") ≡ false
is_address-trim x xs h =
    let same : trim x ≡ x = eq_of_test (trim x) x (ground arith) in rw same (ground arith)

module _ {N H : Type 0} (js : JsNumbers N) (ints : Ints N) (parse_json : String → Option H) where
  -- The channel is an email channel whose config was made from trimmed texts, a port that its text
  -- gives back, and at least one address.
  pub record IsStored (c : NotificationChannel N) : Type 0 where
    pub host : String
    pub port : N
    pub use_tls : Bool
    pub from_addr : String
    pub first : String
    pub others : List String
    pub username : String
    pub kind : c.channel_type ≡ email
    pub config : c.config ≡ stored_config host port use_tls from_addr (first ∷ others) username
    pub name_kept : is_kept c.name ≡ true
    pub host_kept : is_kept host ≡ true
    pub from_kept : is_kept from_addr ≡ true
    pub user_kept : trim username ≡ username
    pub port_read : ints.parse_int (js.show_number port) ≡ port
    pub port_counts : ints.is_falsy port ≡ false
    pub addresses : all is_address (first ∷ others) ≡ true

  -- The payload that leaves the channel as it is stored, its secret included.
  abbrev pub same_input : NotificationChannel N → ChannelInput N H
  same_input c = record {
    channel_type = c.channel_type;
    name = c.name;
    enabled = c.enabled;
    config = c.config;
    secret = no_secret;
    min_severity = c.min_severity;
    notify_on_resolve = c.notify_on_resolve;
  }

  username_back : (u : String) → string_or js "" (text_or_missing u) ≡ u
  username_back u = elim (Bool-cases (u == "")) [
    | inl e ↦ rw e (sym (eq_of_test u "" e))
    | inr e ↦ rw e refl
  ]

  -- What the form shows of a stored channel.
  abbrev opened_form : (c : NotificationChannel N) → IsStored c → FormState
  opened_form c s = record empty_form {
    channel_type = c.channel_type;
    name = c.name;
    enabled = c.enabled;
    min_severity = c.min_severity;
    notify_on_resolve = c.notify_on_resolve;
    host = s.host;
    port = js.show_number s.port;
    use_tls = s.use_tls;
    from_addr = s.from_addr;
    to_addrs = join ", " (s.first ∷ s.others);
    username = s.username;
  }

  form_from_channel-IsStored :
      (c : NotificationChannel N) (s : IsStored c) → form_from_channel js c ≡ opened_form c s
  unfolding form_from_channel value_at get
  form_from_channel-IsStored c s = rw (s.config, username_back s.username) refl

  email_config-opened_form :
      (c : NotificationChannel N) (s : IsStored c)
      → email_config ints parse_json (opened_form c s) ≡ c.config
  email_config-opened_form c s =
      let host = is_kept-trim s.host s.host_kept in
      let sender = is_kept-trim s.from_addr s.from_kept in
      sym (
        s.config
        ∙ sym (
            rw
              (
                host.0,
                sender.0,
                s.user_kept,
                s.port_read,
                s.port_counts,
                recipients-join s.first s.others s.addresses,
              )
              refl))

  restored_input :
      (c : NotificationChannel N) (s : IsStored c)
      → record {
        channel_type = c.channel_type;
        name = trim c.name;
        enabled = c.enabled;
        config = email_config ints parse_json (opened_form c s);
        secret = no_secret;
        min_severity = c.min_severity;
        notify_on_resolve = c.notify_on_resolve;
      }
        ≡ same_input c
  restored_input c s =
      let named = is_kept-trim c.name s.name_kept in
      rw (email_config-opened_form c s) (rw named.0 refl)

  -- A stored email channel that is opened in the form and saved with no change gives the payload that
  -- leaves everything as it is: the same name, switches and config, and no new secret. The channel is one
  -- that the form could have made: its name, host and sender are trimmed and not empty, its user name is
  -- trimmed; it has at least one address, and each is trimmed, not empty and free of commas; its port
  -- counts as true and is given back by its text; and its config has the keys of the form in the order of
  -- the form, an empty user name being stored as a missing value.
  pub build_payload-form_from_channel :
      (c : NotificationChannel N)
      → IsStored c
      → build_payload ints parse_json (form_from_channel js c) ≡ input (same_input c)
  build_payload-form_from_channel c s =
      let named = is_kept-trim c.name s.name_kept in
      let host = is_kept-trim s.host s.host_kept in
      let sender = is_kept-trim s.from_addr s.from_kept in
      let some_text =
        trim-join-ne-nil ", " s.first s.others (is_address-trim s.first s.others s.addresses) in
      ap (build_payload ints parse_json) (form_from_channel-IsStored c s)
      ∙ build_payload_email ints parse_json (opened_form c s) s.kind named.1 host.1 sender.1
          some_text
      ∙ ap input (restored_input c s)
