-- ===== src/Dashboard/Counts.antt =====
-- The counts of the page and those of its rows.
use vortex_flow.Common.{ℕ, ◌+◌, List, [], ◌∷◌, filter, length, ◌≡◌, arith}
use vortex_flow.Dashboard.{
  FleetWithHealth, InstanceWithHealth, is_agent, RowCounts, Rollout, no_rollout, count_row,
  count_rows, fleet_row, count_rollout, count_instances, count_fleets, rollout,
}

module _ {M : Type 0} where
  abbrev pub sum_of : (FleetWithHealth M → ℕ) → List (FleetWithHealth M) → ℕ
  sum_of f [] = 0
  sum_of f (x ∷ xs) = f x + sum_of f xs

  -- The instances of a fleet whose configs are pushed by an agent.
  abbrev pub agents_of : FleetWithHealth M → ℕ
  agents_of f = length (filter (λ i. is_agent i.instance_data.config_push_mode) f.instances)

  count_instances-rows :
      (g : ℕ) (r : Rollout) (c : RowCounts) (is : List (InstanceWithHealth M))
      → ((count_instances g r is).failed + c.failed ≡ r.failed + (count_rows g c is).failed)
        × ((count_instances g r is).pending + c.pending ≡ r.pending + (count_rows g c is).pending)
        × ((count_instances g r is).converged
              + (count_instances g r is).pending
              + (count_instances g r is).failed
            ≡ r.converged
              + r.pending
              + r.failed
              + length (filter (λ i. is_agent i.instance_data.config_push_mode) is))
  unfolding count_instances count_rows
  count_instances-rows g r c [] = omega arith
  count_instances-rows g r c (i ∷ is) =
      let ih =
        count_instances-rows g (count_rollout g r i.instance_data) (count_row g c i.instance_data)
          is in
      ground (arith, ih)

  count_fleets-rows :
      (r : Rollout) (fs : List (FleetWithHealth M))
      → ((count_fleets r fs).failed ≡ r.failed + sum_of (λ f. (fleet_row f).failed) fs)
        × ((count_fleets r fs).pending ≡ r.pending + sum_of (λ f. (fleet_row f).pending) fs)
        × ((count_fleets r fs).converged + (count_fleets r fs).pending + (count_fleets r fs).failed
            ≡ r.converged + r.pending + r.failed + sum_of agents_of fs)
  unfolding count_fleets fleet_row
  count_fleets-rows r [] = omega arith
  count_fleets-rows r (f ∷ fs) =
      let here =
        count_instances-rows f.generation r (record { failed = 0; pending = 0 }) f.instances in
      let rest = count_fleets-rows (count_instances f.generation r f.instances) fs in
      omega (arith, here, rest)

  -- The page counts as failed and as pending what the rows of the fleets count together, and each
  -- instance that is pushed by an agent is counted once, as converged, pending or failed.
  pub rollout-rows :
      (fs : List (FleetWithHealth M))
      → ((rollout fs).failed ≡ sum_of (λ f. (fleet_row f).failed) fs)
        × ((rollout fs).pending ≡ sum_of (λ f. (fleet_row f).pending) fs)
        × ((rollout fs).converged + (rollout fs).pending + (rollout fs).failed
            ≡ sum_of agents_of fs)
  unfolding rollout
  rollout-rows fs = omega (arith, count_fleets-rows no_rollout fs)
