-- ===== src/Dashboard.antt =====
-- frontend/src/pages/Dashboard.tsx: the fleets with the health of their instances, as the answers of
-- the server come in, and the counts that the page shows of them. `M` stands for the metrics of an
-- instance; fields that the page only draws are left out.
pub mod Board
pub mod Counts
pub mod Health
mod Tests
use vortex_flow.Common.{
  ℕ, ◌+◌, String, Bool, true, false, not, Option, none, some, List, [], ◌∷◌, map, find, any, all,
  filter, length, ◌==◌, ◌&&◌, ◌||◌, if◌then◌else◌, nat_eq,
}

pub data NodeHealth : Type 0 where
  healthy degraded offline unknown : NodeHealth

pub data PushMode : Type 0 where
  local agent : PushMode

pub record DashboardInstance (M : Type 0) : Type 0 where
  pub id : String
  pub label : String
  pub config_push_mode : PushMode
  pub applied_generation : Option ℕ
  pub agent_status : Option String
  pub vector_version : Option String
  pub metrics : M

pub record DashboardFleet (M : Type 0) : Type 0 where
  pub id : String
  pub name : String
  pub is_default : Bool
  pub generation : ℕ
  pub instances : List (DashboardInstance M)

pub record InstanceWithHealth (M : Type 0) : Type 0 where
  pub instance_data : DashboardInstance M
  pub health : NodeHealth

-- A fleet, whose instances are replaced by those with a health.
pub record FleetWithHealth (M : Type 0) : Type 0 where
  pub id : String
  pub name : String
  pub is_default : Bool
  pub generation : ℕ
  pub instances : List (InstanceWithHealth M)

abbrev pub is_offline : NodeHealth → Bool
is_offline healthy = false
is_offline degraded = false
is_offline offline = true
is_offline unknown = false

abbrev pub is_degraded : NodeHealth → Bool
is_degraded healthy = false
is_degraded degraded = true
is_degraded offline = false
is_degraded unknown = false

abbrev pub is_unknown : NodeHealth → Bool
is_unknown healthy = false
is_unknown degraded = false
is_unknown offline = false
is_unknown unknown = true

abbrev pub is_agent : PushMode → Bool
is_agent local = false
is_agent agent = true

-- `status === 'validate_failed' || status === 'reload_failed'`
abbrev pub has_failed : Option String → Bool
has_failed none = false
has_failed (some status) = status == "validate_failed" || status == "reload_failed"

-- `applied === generation`, on a number that may be missing
abbrev pub is_applied : Option ℕ → ℕ → Bool
is_applied none generation = false
is_applied (some applied) generation = nat_eq applied generation

pub record RowCounts : Type 0 where
  pub failed : ℕ
  pub pending : ℕ

pub record Rollout : Type 0 where
  pub converged : ℕ
  pub pending : ℕ
  pub failed : ℕ

abbrev pub no_rollout : Rollout
no_rollout = record { converged = 0; pending = 0; failed = 0 }

module _ {M : Type 0} where
  unfoldable pub fleet_health : FleetWithHealth M → NodeHealth
  fleet_health f =
      let hs = map (λ i. i.health) f.instances in
      if any is_offline hs
      then offline
      else if any is_degraded hs
      then degraded
      else if all is_unknown hs
      then unknown
      else healthy

  -- The loop of `FleetRow`.
  abbrev pub count_row : ℕ → RowCounts → DashboardInstance M → RowCounts
  count_row generation c i =
      if not (is_agent i.config_push_mode)
      then c
      else if has_failed i.agent_status
      then record c { failed = c.failed + 1 }
      else if not (is_applied i.applied_generation generation)
      then record c { pending = c.pending + 1 }
      else c

  unfoldable pub count_rows : ℕ → RowCounts → List (InstanceWithHealth M) → RowCounts
  count_rows generation c [] = c
  count_rows generation c (i ∷ is) =
      count_rows generation (count_row generation c i.instance_data) is

  unfoldable pub fleet_row : FleetWithHealth M → RowCounts
  fleet_row f = count_rows f.generation (record { failed = 0; pending = 0 }) f.instances

  -- The loop of the page over all fleets.
  abbrev pub count_rollout : ℕ → Rollout → DashboardInstance M → Rollout
  count_rollout generation r i =
      if is_agent i.config_push_mode
      then (if has_failed i.agent_status
          then record r { failed = r.failed + 1 }
          else if is_applied i.applied_generation generation
          then record r { converged = r.converged + 1 }
          else record r { pending = r.pending + 1 })
      else r

  unfoldable pub count_instances : ℕ → Rollout → List (InstanceWithHealth M) → Rollout
  count_instances generation r [] = r
  count_instances generation r (i ∷ is) =
      count_instances generation (count_rollout generation r i.instance_data) is

  unfoldable pub count_fleets : Rollout → List (FleetWithHealth M) → Rollout
  count_fleets r [] = r
  count_fleets r (f ∷ fs) = count_fleets (count_instances f.generation r f.instances) fs

  unfoldable pub rollout : List (FleetWithHealth M) → Rollout
  rollout fleets = count_fleets no_rollout fleets
