-- ===== src/Channels/Payload.antt =====
-- What the payload of a form holds.
use vortex_flow.Common.{
  String, Bool, true, false, Option, none, some, [], not, all, ◌≡◌, refl, ap, sym, ◌∙◌, ◌==◌, ◌||◌,
  ◌&&◌, if◌then◌else◌, split, trim, arith, Bool-cases, inl, inr, Dict, get,
}
use vortex_flow.Catalog.{Value, items, value_at}
use vortex_flow.Channels.{
  ChannelType, webhook, slack, teams, email, Secret, no_secret, password_only, ChannelInput,
  FormState, Ints, BuildResult, input, error, with_parts, email_config, build_email, with_headers,
  build_hook, build_typed, build_payload,
}
use vortex_flow.Channels.Recipients.{recipients_blank}

module _ {N H : Type 0} where
  abbrev pub config_of : BuildResult N H → Option (Dict (Value N))
  config_of (input i) = some i.config
  config_of (error message) = none

  abbrev pub secret_of : BuildResult N H → Option (Secret H)
  secret_of (input i) = some i.secret
  secret_of (error message) = none

  abbrev is_input : BuildResult N H → Bool
  is_input (input i) = true
  is_input (error message) = false

module _ {N H : Type 0} (ints : Ints N) (parse_json : String → Option H) where
  -- The config that a form gives, whatever it holds as secrets.
  abbrev pub open_config : FormState → ChannelType → Dict (Value N)
  open_config f webhook = []
  open_config f slack = []
  open_config f teams = []
  open_config f email = email_config ints parse_json f

  build_hook-config :
      (f : FormState) (takes : Bool) (d : Dict (Value N))
      → config_of (build_hook ints parse_json f takes) ≡ some d
      → d ≡ []
  unfolding build_hook
  build_hook-config f takes d h = elim (Bool-cases (trim f.url == "")) [
    | inl e ↦ one_config (rw e at h)
    | inr e ↦ elim (Bool-cases (takes && not (trim f.headers == ""))) [
      | inl t ↦ of_headers (parse_json f.headers) (rw (e, t) at h)
      | inr t ↦ one_config (rw (e, t) at h)
    ]
  ]
    where
      one_config : some [] ≡ some d → d ≡ []
      one_config k = ground arith

      of_headers : (o : Option H) → config_of (with_headers ints parse_json f o) ≡ some d → d ≡ []
      of_headers none k = ground arith
      of_headers (some j) k = one_config k

  build_email-config :
      (f : FormState) (d : Dict (Value N))
      → config_of (build_email ints parse_json f) ≡ some d
      → d ≡ email_config ints parse_json f
  unfolding build_email
  build_email-config f d h =
      elim (Bool-cases (trim f.host == "" || (trim f.from_addr == "" || trim f.to_addrs == ""))) [
        | inl e ↦ let clash : none ≡ some d = rw e at h in ground arith
        | inr e ↦
            let same : some (email_config ints parse_json f) ≡ some d = rw e at h in ground arith
      ]

  build_typed-config :
      (f : FormState) (t : ChannelType) (d : Dict (Value N))
      → config_of (build_typed ints parse_json t f) ≡ some d
      → d ≡ open_config f t
  build_typed-config f webhook d h = build_hook-config f true d h
  build_typed-config f slack d h = build_hook-config f false d h
  build_typed-config f teams d h = build_hook-config f false d h
  build_typed-config f email d h = build_email-config f d h

  build_payload-config :
      (f : FormState) (d : Dict (Value N))
      → config_of (build_payload ints parse_json f) ≡ some d
      → d ≡ open_config f f.channel_type
  unfolding build_payload
  build_payload-config f d h = elim (Bool-cases (trim f.name == "")) [
    | inl e ↦ let clash : none ≡ some d = rw e at h in ground arith
    | inr e ↦ build_typed-config f f.channel_type d (rw e at h)
  ]

  -- Two forms that hold the same in all fields but the name, the switches and the secrets (the
  -- password, the URL and the headers).
  pub record AgreesOpenly (f g : FormState) : Type 0 where
    pub channel_type : f.channel_type ≡ g.channel_type
    pub host : f.host ≡ g.host
    pub port : f.port ≡ g.port
    pub use_tls : f.use_tls ≡ g.use_tls
    pub from_addr : f.from_addr ≡ g.from_addr
    pub to_addrs : f.to_addrs ≡ g.to_addrs
    pub username : f.username ≡ g.username

  open_config-agrees :
      (f g : FormState) (t : ChannelType) → AgreesOpenly f g → open_config f t ≡ open_config g t
  open_config-agrees f g webhook a = refl
  open_config-agrees f g slack a = refl
  open_config-agrees f g teams a = refl
  open_config-agrees f g email a =
      rw (← a.host, ← a.port, ← a.use_tls, ← a.from_addr, ← a.to_addrs, ← a.username) refl

  -- Where two forms differ at most in the name, the switches and the secrets, and both are accepted,
  -- their configs are the same: no URL, header or password reaches the part that is stored openly.
  pub build_payload_hides :
      (f g : FormState) (d e : Dict (Value N))
      → AgreesOpenly f g
      → config_of (build_payload ints parse_json f) ≡ some d
      → config_of (build_payload ints parse_json g) ≡ some e
      → d ≡ e
  build_payload_hides f g d e a h k =
      build_payload-config f d h
      ∙ ap (open_config f) a.channel_type
      ∙ open_config-agrees f g g.channel_type a
      ∙ sym (build_payload-config g e k)

  -- A complete email form is accepted.
  pub build_payload_email :
      (f : FormState)
      → f.channel_type ≡ email
      → (trim f.name == "") ≡ false
      → (trim f.host == "") ≡ false
      → (trim f.from_addr == "") ≡ false
      → (trim f.to_addrs == "") ≡ false
      → build_payload ints parse_json f
        ≡ with_parts ints parse_json f
            (email_config ints parse_json f)
            (if f.password == "" then no_secret else password_only f.password)
  build_payload_email f kind named host sender some_text =
      typed ∙ ap (λ t. build_typed ints parse_json t f) kind ∙ built
    where
      typed : build_payload ints parse_json f ≡ build_typed ints parse_json f.channel_type f
      typed = unfold build_payload in rw named refl

      built :
          build_email ints parse_json f
          ≡ with_parts ints parse_json f
              (email_config ints parse_json f)
              (if f.password == "" then no_secret else password_only f.password)
      built = unfold build_email in rw (host, sender, some_text) refl

  -- An email form with a name, a host, a sender and a text of recipients that has only commas and
  -- white space is accepted, and its payload has no recipient.
  pub build_payload_no_recipient :
      (f : FormState)
      → f.channel_type ≡ email
      → (trim f.name == "") ≡ false
      → (trim f.host == "") ≡ false
      → (trim f.from_addr == "") ≡ false
      → (trim f.to_addrs == "") ≡ false
      → all (λ p. trim p == "") (split "," f.to_addrs) ≡ true
      → (i : ChannelInput N H) × (build_payload ints parse_json f ≡ input i)
        × (value_at i.config "to_addrs" ≡ items [])
  unfolding value_at get
  build_payload_no_recipient f kind named host sender some_text blank = (
    record {
      channel_type = f.channel_type;
      name = trim f.name;
      enabled = f.enabled;
      config = email_config ints parse_json f;
      secret = if f.password == "" then no_secret else password_only f.password;
      min_severity = f.min_severity;
      notify_on_resolve = f.notify_on_resolve;
    },
    build_payload_email f kind named host sender some_text,
    ap items (recipients_blank f.to_addrs blank),
  )
