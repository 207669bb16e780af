-- ===== src/Dashboard/Health.antt =====
-- The health of an instance follows the answers for it, in whatever order they come.
use vortex_flow.Common.{
  text_tests, String, Option, none, some, List, [], ◌∷◌, map, find, ◌≡◌, refl, ap, ◌∙◌, arith, inl,
  inr, Bool-cases, ◌==◌, ◌&&◌, if◌then◌else◌,
}
use mathlib.Core.Option
use vortex_flow.Dashboard.{
  NodeHealth, unknown, DashboardInstance, DashboardFleet, FleetWithHealth, InstanceWithHealth,
}
use vortex_flow.Dashboard.Board.{
  Board, Action, summary_arrives, health_arrives, refreshes, selects, health_answer,
  with_unknown_health, set_instance, set_health, act, act_all,
}

module _ {M : Type 0} (fleet_id id : String) where
  abbrev health_in_list : List (InstanceWithHealth M) → Option NodeHealth
  health_in_list is = Option.map (λ i. i.health) (find (λ i. i.instance_data.id == id) is)

  abbrev health_in_fleet : Option (FleetWithHealth M) → Option NodeHealth
  health_in_fleet none = none
  health_in_fleet (some f) = health_in_list f.instances

  -- The health that the board has for the instance `id` of the fleet, if it is there.
  abbrev pub health_of : Board M → Option NodeHealth
  health_of b = health_in_fleet (find (λ f. f.id == fleet_id) b.fleets)

  abbrev is_listed_in : Option (DashboardFleet M) → Option NodeHealth
  is_listed_in none = none
  is_listed_in (some f) = Option.map (λ i. unknown) (find (λ i. i.id == id) f.instances)

  -- What one action makes of the health of the instance: a summary begins anew, with an unknown
  -- health where it lists the instance; an answer for the instance counts at once.
  abbrev pub told : Option NodeHealth → Action M → Option NodeHealth
  told h (summary_arrives none) = h
  told h (summary_arrives (some data_)) = is_listed_in (find (λ f. f.id == fleet_id) data_.fleets)
  told h (health_arrives f i answer) =
      if f == fleet_id && i == id then Option.map (λ g. health_answer answer) h else h
  told h refreshes = h
  told h (selects s) = h

  unfoldable pub told_all : Option NodeHealth → List (Action M) → Option NodeHealth
  told_all h [] = h
  told_all h (a ∷ rest) = told_all (told h a) rest

  health-set_instances :
      (i : String) (g : NodeHealth) (is : List (InstanceWithHealth M))
      → health_in_list (map (set_instance i g) is)
        ≡ (if i == id then Option.map (λ h. g) (health_in_list is) else health_in_list is)
  health-set_instances i g [] = ground arith
  health-set_instances i g (x ∷ is) =
      let k = x.instance_data.id in grind (text_tests, health-set_instances i g is)

  find-with_unknown_health :
      (fs : List (DashboardFleet M))
      → health_in_fleet (find (λ f. f.id == fleet_id) (map with_unknown_health fs))
        ≡ is_listed_in (find (λ f. f.id == fleet_id) fs)
  find-with_unknown_health [] = refl
  find-with_unknown_health (f ∷ fs) = elim (Bool-cases (f.id == fleet_id)) [
    | inl e ↦ rw e (listed f.instances)
    | inr e ↦ rw e (find-with_unknown_health fs)
  ]
    where
      listed :
          (is : List (DashboardInstance M))
          → health_in_list (map (λ i. record { instance_data = i; health = unknown }) is)
            ≡ Option.map (λ i. unknown) (find (λ i. i.id == id) is)
      listed [] = refl
      listed (i ∷ is) = elim (Bool-cases (i.id == id)) [
        | inl e ↦ rw e refl
        | inr e ↦ rw e (listed is)
      ]

  health-set_fleets :
      (s i : String) (g : NodeHealth) (fs : List (FleetWithHealth M))
      → health_in_fleet (find (λ f. f.id == fleet_id) (map (set_health s i g) fs)) ≡ (
          if s == fleet_id && i == id
          then Option.map (λ h. g) (health_in_fleet (find (λ f. f.id == fleet_id) fs))
          else health_in_fleet (find (λ f. f.id == fleet_id) fs))
  health-set_fleets s i g [] = ground arith
  health-set_fleets s i g (f ∷ fs) =
      grind (text_tests, health-set_instances i g f.instances, health-set_fleets s i g fs)

  health-act : (a : Action M) (b : Board M) → health_of (act a b) ≡ told (health_of b) a
  unfolding act
  health-act (summary_arrives none) b = refl
  health-act (summary_arrives (some data_)) b = find-with_unknown_health data_.fleets
  health-act (health_arrives s i answer) b = health-set_fleets s i (health_answer answer) b.fleets
  health-act refreshes b = refl
  health-act (selects s) b = refl

  -- Whatever summaries and answers arrive, and in whatever order, the health of an instance is the one
  -- that these say for it alone: unknown since a summary that lists it, and then that of the last
  -- answer to a check of it, which other instances do not touch.
  pub health-act_all :
      (acts : List (Action M)) (b : Board M)
      → health_of (act_all acts b) ≡ told_all (health_of b) acts
  unfolding act_all told_all
  health-act_all [] b = refl
  health-act_all (a ∷ rest) b =
      health-act_all rest (act a b) ∙ ap (λ h. told_all h rest) (health-act a b)
