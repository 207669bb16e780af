-- ===== src/Dashboard/Tests.antt =====
-- The dashboard on one fleet with two instances; metrics are left empty.
use vortex_flow.Common.{ℕ, String, true, Option, none, some, List, [], ◌∷◌, map, ◌≡◌, refl, ◌+◌}
use vortex_flow.Dashboard.{
  offline, agent, DashboardInstance, DashboardFleet, FleetWithHealth, rollout, fleet_row,
  fleet_health, count_fleets, count_instances,
}
use vortex_flow.Dashboard.Board.{
  DashboardSummary, Board, Action, summary_arrives, health_arrives, refreshes, empty_board,
  with_unknown_health, act, act_all,
}
use vortex_flow.Dashboard.Counts.{sum_of, agents_of, rollout-rows}
use vortex_flow.Dashboard.Health.{health_of, told_all, health-act_all}

abbrev node : String → Option ℕ → Option String → DashboardInstance Unit
node id applied status = record {
  id = id;
  label = id;
  config_push_mode = agent;
  applied_generation = applied;
  agent_status = status;
  vector_version = none;
  metrics = tt;
}

abbrev edge_fleet : DashboardFleet Unit
edge_fleet = record {
  id = "f";
  name = "edge";
  is_default = true;
  generation = 3;
  instances = node "a" (some 3) none ∷ node "b" none (some "reload_failed") ∷ [];
}

abbrev summary : DashboardSummary Unit
summary = record { desired_vector_version = ""; fleets = edge_fleet ∷ []; total_instances = 2 }

abbrev shown : List (FleetWithHealth Unit)
shown = with_unknown_health edge_fleet ∷ []

one_failed : ((rollout shown).converged ≡ 1) × ((rollout shown).failed ≡ 1)
unfolding rollout count_fleets count_instances
one_failed = (refl, refl)

rollout-rows_example :
    ((rollout shown).failed ≡ sum_of (λ f. (fleet_row f).failed) shown)
    × ((rollout shown).pending ≡ sum_of (λ f. (fleet_row f).pending) shown)
    × ((rollout shown).converged + (rollout shown).pending + (rollout shown).failed
        ≡ sum_of agents_of shown)
rollout-rows_example = rollout-rows shown

abbrev answers : List (Action Unit)
answers =
    summary_arrives (some summary)
    ∷ health_arrives "f" "b" none
    ∷ refreshes
    ∷ health_arrives "f" "a" (some true)
    ∷ []

abbrev opening : Board Unit
opening = empty_board

red_dot : map fleet_health (act_all answers opening).fleets ≡ offline ∷ []
unfolding act_all act fleet_health
red_dot = refl

told_b : told_all "f" "b" none answers ≡ some offline
unfolding told_all
told_b = refl

health-act_all_example :
    health_of "f" "b" (act_all answers opening)
    ≡ told_all "f" "b" (health_of "f" "b" opening) answers
health-act_all_example = health-act_all "f" "b" answers opening
