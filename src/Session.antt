-- ===== src/Session.antt =====
-- What the client keeps of a session: frontend/src/lib/fleet.tsx (the active fleet),
-- frontend/src/lib/deleteGuard.ts (deletes that may be refused) and frontend/src/lib/useCatalog.ts
-- (the catalog that is loaded from the server).
pub mod Loads
pub mod Choice
pub mod Deletes
mod Tests
use vortex_flow.Common.{
  ℕ, String, Bool, true, false, Option, none, some, List, [], ◌∷◌, ◌++◌, ◌==◌, if◌then◌else◌, find,
  nat_eq, ◌+s◌,
}
use vortex_flow.Types.{Fleet}
use vortex_flow.Catalog.{CatalogComponent, build_catalog}

-- `a ?? b`
abbrev pub or_else {ℓ} : {A : Type ℓ} → Option A → Option A → Option A
or_else none b = b
or_else (some a) b = some a

abbrev pub first_of {ℓ} : {A : Type ℓ} → List A → Option A
first_of [] = none
first_of (x ∷ xs) = some x

abbrev pub find_fleet : String → List Fleet → Option Fleet
find_fleet id list = find (λ s. s.id == id) list

-- `storedId ? list.find(...) ?? null : null`; an empty id counts as none.
abbrev pub stored_fleet : Option String → List Fleet → Option Fleet
stored_fleet none list = none
stored_fleet (some id) list = if id == "" then none else find_fleet id list

-- The fleet that becomes active when the fleets arrive.
unfoldable pub choose_fleet : Option String → List Fleet → Option Fleet
choose_fleet stored list =
    or_else (stored_fleet stored list) (or_else (find (λ s. s.is_default) list) (first_of list))

-- The body of the error of a delete: a text, an object with or without a message, or none.
pub data Detail : Type 0 where
  plain : String → Detail
  with_message : Option String → Detail
  no_detail : Detail

pub record DeleteError : Type 0 where
  pub status : Option ℕ
  pub detail : Detail

pub data DeleteResult : Type 0 where
  deleted cancelled : DeleteResult
  thrown : DeleteError → DeleteResult

abbrev pub message_or : Option String → String
message_or none = "This item is in use."
message_or (some m) = m

abbrev pub in_use_message : Detail → String
in_use_message (plain m) = m
in_use_message (with_message m) = message_or m
in_use_message no_detail = message_or none

abbrev pub is_status : Option ℕ → ℕ → Bool
is_status none n = false
is_status (some m) n = nat_eq m n

abbrev pub forced_result : Option DeleteError → DeleteResult
forced_result none = deleted
forced_result (some e) = thrown e

unfoldable pub after_first :
    (Bool → Option DeleteError) → (String → Bool) → Option DeleteError → DeleteResult × List Bool
after_first call confirm none = (deleted, false ∷ [])
after_first call confirm (some e) =
    if is_status e.status 409
    then if confirm (in_use_message e.detail +s "\n\nForce delete anyway?")
      then (forced_result (call true), false ∷ true ∷ [])
      else (cancelled, false ∷ [])
    else (thrown e, false ∷ [])

-- `deleteGuarded`: `call` gives the error of the request with that flag, if any, and `confirm` what
-- the user answers. With the result come the flags of the requests that were sent.
unfoldable pub delete_guarded :
    (Bool → Option DeleteError) → (String → Bool) → DeleteResult × List Bool
delete_guarded call confirm = after_first call confirm (call false)

-- The sources and the sinks of a catalog.
abbrev pub Sides : Type 0 → Type 0
Sides N = List (CatalogComponent N) × List (CatalogComponent N)

pub record CatalogState (N : Type 0) : Type 0 where
  pub catalog : Sides N
  pub vector_version : Option String
  pub live : Bool
  pub loading : Bool

-- What the calls of `load` find: the version header and what `schemaToCatalog` makes of the schema,
-- or an error in one of them.
pub data LoadReply (N : Type 0) : Type 0 where
  schema : Option String → Sides N → LoadReply N
  failed : LoadReply N

-- A call of `load` starts, or the answer to one arrives; calls may overlap.
pub data LoadEvent (N : Type 0) : Type 0 where
  starts : LoadEvent N
  arrives : LoadReply N → LoadEvent N

-- `header || null`
abbrev pub version_of : Option String → Option String
version_of none = none
version_of (some v) = if v == "" then none else some v

module _ {N : Type 0} (curated bundled : Sides N) where
  abbrev pub first_state : CatalogState N
  first_state = record { catalog = bundled; vector_version = none; live = false; loading = true }

  unfoldable pub load_step : CatalogState N → LoadEvent N → CatalogState N
  load_step s starts = record {
    catalog = s.catalog;
    vector_version = s.vector_version;
    live = s.live;
    loading = true;
  }
  load_step s (arrives (schema header gen)) = record {
    catalog = build_catalog curated gen;
    vector_version = version_of header;
    live = true;
    loading = false;
  }
  load_step s (arrives failed) = record {
    catalog = bundled;
    vector_version = s.vector_version;
    live = false;
    loading = false;
  }

  unfoldable pub load_run : CatalogState N → List (LoadEvent N) → CatalogState N
  load_run s [] = s
  load_run s (e ∷ es) = load_run (load_step s e) es
