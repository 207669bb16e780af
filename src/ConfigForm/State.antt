-- ===== src/ConfigForm/State.antt =====
-- frontend/src/components/catalog/ComponentConfigForm.tsx: the state of the form, and small tests on it.
use vortex_flow.Common.{
  String, Bool, true, false, not, ◌&&◌, ◌||◌, ◌==◌, Option, none, some, List, [], ◌∷◌, has, Dict,
  insert, if◌then◌else◌,
}
use vortex_flow.Types.{User, Role, admin, editor, viewer, ComponentKind, source, sink}
use vortex_flow.Catalog.{Value}
use vortex_flow.Catalog.Preview.{ConfigKind, sources, sinks, transforms}

pub data SaveState : Type 0 where
  idle saving saved failed : SaveState

-- The ids of the certificates that are chosen; none and an empty text count alike.
pub record CertRefs : Type 0 where
  pub identity : Option String
  pub ca : Option String

pub record ConfigFormState (N : Type 0) : Type 0 where
  pub name : String
  pub values : Dict (Value N)
  pub raw_mode : Bool
  pub raw_yaml : String
  pub save_state : SaveState
  pub save_error : Option String
  pub touched : Dict Bool
  pub cert_refs : CertRefs

-- What is sent to the server.
pub data SaveRequest (N : Type 0) : Type 0 where
  update_component : String → String → Dict (Value N) → Dict String → SaveRequest N
  create_component :
      String → ComponentKind → String → String → Dict (Value N) → Dict String → SaveRequest N

abbrev pub config_of : {N : Type 0} → SaveRequest N → Dict (Value N)
config_of (update_component id name config refs) = config
config_of (create_component fleet kind name t config refs) = config

abbrev pub identity_fields : List String
identity_fields = "tls.crt_file" ∷ "tls.key_file" ∷ "tls.key_pass" ∷ []

abbrev pub ca_fields : List String
ca_fields = "tls.ca_file" ∷ []

-- `Boolean(id)`
abbrev pub is_chosen : Option String → Bool
is_chosen none = false
is_chosen (some id) = not (id == "")

-- `id || undefined`
abbrev pub or_unset : String → Option String
or_unset id = if id == "" then none else some id

abbrev pub or_fallback : String → String → String
or_fallback s fallback = if s == "" then fallback else s

-- The input of a field is hidden, because a chosen certificate provides it.
unfoldable pub is_managed : CertRefs → String → Bool
is_managed refs key =
    (has identity_fields key && is_chosen refs.identity) || (has ca_fields key && is_chosen refs.ca)

abbrev pub add_ref : String → Option String → Dict String → Dict String
add_ref key none refs = refs
add_ref key (some id) refs = if id == "" then refs else insert key id refs

-- `cleanRefs`
abbrev pub clean_refs : CertRefs → Dict String
clean_refs refs = add_ref "ca" refs.ca (add_ref "identity" refs.identity [])

abbrev pub is_role_editing : Role → Bool
is_role_editing admin = true
is_role_editing editor = true
is_role_editing viewer = false

abbrev pub can_edit : Option User → Bool
can_edit none = false
can_edit (some user) = is_role_editing user.role

abbrev pub is_saving : SaveState → Bool
is_saving idle = false
is_saving saving = true
is_saving saved = false
is_saving failed = false

abbrev pub is_there : {A : Type 0} → Option A → Bool
is_there none = false
is_there (some a) = true

abbrev pub or_message : Option String → String
or_message none = "Save failed — check your connection and retry"
or_message (some detail) = detail

abbrev pub kind_of : ConfigKind → ComponentKind
kind_of sources = source
kind_of sinks = sink
kind_of transforms = sink
