-- ===== src/Dashboard/Board.antt =====
-- frontend/src/pages/Dashboard.tsx: the state of the page, as summaries and the answers of the checks
-- arrive.
use vortex_flow.Common.{
  ℕ, String, Bool, true, false, Option, none, some, List, [], ◌∷◌, map, find, ◌==◌, if◌then◌else◌,
}
use vortex_flow.Dashboard.{
  NodeHealth, healthy, offline, unknown, DashboardFleet, InstanceWithHealth, FleetWithHealth,
}

pub record DashboardSummary (M : Type 0) : Type 0 where
  pub desired_vector_version : String
  pub fleets : List (DashboardFleet M)
  pub total_instances : ℕ

pub record Board (M : Type 0) : Type 0 where
  pub summary : Option (DashboardSummary M)
  pub fleets : List (FleetWithHealth M)
  pub loading : Bool
  pub selected_id : Option String

-- A summary or an error arrives; a check of an instance is answered, with whether the instance is
-- reachable, or fails; the user refreshes or selects a fleet.
pub data Action (M : Type 0) : Type 0 where
  summary_arrives : Option (DashboardSummary M) → Action M
  health_arrives : String → String → Option Bool → Action M
  refreshes : Action M
  selects : Option String → Action M

abbrev pub health_answer : Option Bool → NodeHealth
health_answer none = offline
health_answer (some reachable) = if reachable then healthy else offline

module _ {M : Type 0} where
  abbrev pub empty_board : Board M
  empty_board = record { summary = none; fleets = []; loading = true; selected_id = none }

  abbrev pub with_unknown_health : DashboardFleet M → FleetWithHealth M
  with_unknown_health s = record {
    id = s.id;
    name = s.name;
    is_default = s.is_default;
    generation = s.generation;
    instances = map (λ i. record { instance_data = i; health = unknown }) s.instances;
  }

  abbrev pub set_instance : String → NodeHealth → InstanceWithHealth M → InstanceWithHealth M
  set_instance id h i = if i.instance_data.id == id then record i { health = h } else i

  abbrev pub set_health : String → String → NodeHealth → FleetWithHealth M → FleetWithHealth M
  set_health fleet_id id h f =
      if f.id == fleet_id then record f { instances = map (set_instance id h) f.instances } else f

  abbrev pub id_of : Option (DashboardFleet M) → Option String
  id_of none = none
  id_of (some f) = some f.id

  abbrev pub or_first : Option String → List (DashboardFleet M) → Option String
  or_first (some id) fleets = some id
  or_first none [] = none
  or_first none (f ∷ fs) = some f.id

  abbrev pub default_of : List (DashboardFleet M) → Option String
  default_of fleets = or_first (id_of (find (λ f. f.is_default) fleets)) fleets

  -- What is selected stays so.
  abbrev pub select_default : List (DashboardFleet M) → Option String → Option String
  select_default fleets none = default_of fleets
  select_default fleets (some prev) = if prev == "" then default_of fleets else some prev

  abbrev pub on_summary : Option (DashboardSummary M) → Board M → Board M
  on_summary none b = record b { loading = false }
  on_summary (some data_) b = record b {
    summary = some data_;
    fleets = map with_unknown_health data_.fleets;
    selected_id = select_default data_.fleets b.selected_id;
    loading = false;
  }

  unfoldable pub act : Action M → Board M → Board M
  act (summary_arrives answer) b = on_summary answer b
  act (health_arrives fleet_id id answer) b = record b {
    fleets = map (set_health fleet_id id (health_answer answer)) b.fleets;
  }
  act refreshes b = record b { loading = true }
  act (selects id) b = record b { selected_id = id }

  unfoldable pub act_all : List (Action M) → Board M → Board M
  act_all [] b = b
  act_all (a ∷ rest) b = act_all rest (act a b)
