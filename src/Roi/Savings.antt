-- ===== src/Roi/Savings.antt =====
-- `calculateTotalSavings` and the estimates that it makes without a database. A loop over a Go map takes
-- the order of its entries in the model.
use gpuautoscaler.Prelude.{
  pos, Option, none, some, String, str_eq, [], ◌∷◌, Entries, Bool, not, if◌then◌else◌,
}
use gpuautoscaler.Prelude.Float.{Float64}
use gpuautoscaler.Prelude.Results.{Result, ok, err}
use gpuautoscaler.Prelude.Time.{Time}
use gpuautoscaler.Cost.Tracker.{PodCost, CostTracker}
use gpuautoscaler.Roi.Model.{ReportPeriod, SavingsBreakdown, no_breakdown}

module _ (fl : Float64) where
  abbrev pub set_saving : String → fl.F → SavingsBreakdown fl → SavingsBreakdown fl
  set_saving kind amount s =
      if str_eq kind "spot"
      then record s { spot_instance_savings = amount }
      else if str_eq kind "sharing"
      then record s { gpu_sharing_savings = amount }
      else if str_eq kind "autoscaling"
      then record s { autoscaling_savings = amount }
      else if str_eq kind "waste"
      then record s { waste_elimination_savings = amount }
      else if str_eq kind "idle"
      then record s { idle_resource_savings = amount }
      else s

  unfoldable pub set_savings : Entries fl.F → SavingsBreakdown fl → SavingsBreakdown fl
  set_savings [] s = s
  set_savings (e ∷ es) s = set_savings es (set_saving e.key e.value s)

  -- The costs of the cached pods that pass a test, one after the other.
  unfoldable pub cost_where : (PodCost fl → Bool) → Entries (PodCost fl) → fl.F → fl.F
  cost_where test [] total = total
  cost_where test (e ∷ es) total =
      cost_where test es (if test e.value then fl.add total e.value.total_cost else total)

  -- The savings, and what the machines would have cost on demand.
  abbrev pub calculate_spot_savings : CostTracker fl → fl.F × fl.F
  calculate_spot_savings t =
      let spot =
        cost_where (λ (c : PodCost fl). str_eq c.capacity_type "spot") t.pod_cost_cache
          (fl.of_int (pos 0)) in
      let on_demand = fl.div spot (fl.lit 35 2) in (fl.sub on_demand spot, on_demand)

  abbrev pub calculate_sharing_savings : CostTracker fl → fl.F
  calculate_sharing_savings t =
      let shared =
        cost_where (λ (c : PodCost fl). not (str_eq c.sharing_mode "exclusive")) t.pod_cost_cache
          (fl.of_int (pos 0)) in
      fl.sub (fl.mul shared (fl.of_int (pos 4))) shared

  unfoldable pub estimate_savings_from_current_state : CostTracker fl → SavingsBreakdown fl
  unfolding cost_where
  estimate_savings_from_current_state t =
      let (spot, on_demand) = calculate_spot_savings t in
      record {
        spot_instance_savings = spot;
        gpu_sharing_savings = calculate_sharing_savings t;
        autoscaling_savings = fl.mul on_demand (fl.lit 35 2);
        waste_elimination_savings = fl.mul on_demand (fl.lit 15 2);
        idle_resource_savings = fl.of_int (pos 0);
      }

  -- `GetTotalSavings` of the database for a range of times.
  abbrev pub SavingsDb : Type 0
  SavingsDb = Time → Time → Result (Entries fl.F)

  abbrev pub breakdown_of : Result (Entries fl.F) → Result (SavingsBreakdown fl)
  breakdown_of (err e) = err e
  breakdown_of (ok amounts) = ok (set_savings amounts (no_breakdown fl))

  unfoldable pub calculate_total_savings :
      Option SavingsDb → CostTracker fl → ReportPeriod → Result (SavingsBreakdown fl)
  unfolding set_savings estimate_savings_from_current_state
  calculate_total_savings none t period = ok (estimate_savings_from_current_state t)
  calculate_total_savings (some db) t period = breakdown_of (db period.start_date period.end_date)

  -- The sum that the report calls its total.
  abbrev pub sum_breakdown : SavingsBreakdown fl → fl.F
  sum_breakdown s =
      fl.add
        (fl.add
          (fl.add (fl.add s.spot_instance_savings s.gpu_sharing_savings) s.autoscaling_savings)
          s.waste_elimination_savings)
        s.idle_resource_savings
