-- ===== src/Attribution/Savings.antt =====
-- `calculateSavings`: the savings of the last thirty days, of the whole cluster.
use gpuautoscaler.Prelude.{pos, Option, none, some, String, str_eq, [], ◌∷◌, Entries, if◌then◌else◌}
use gpuautoscaler.Prelude.Float.{Float64}
use gpuautoscaler.Prelude.Results.{Result, ok, err}
use gpuautoscaler.Prelude.Time.{Time}
use gpuautoscaler.Attribution.Model.{zero_cost, SavingsData, CostDb, Calendar}

module _ (fl : Float64) where
  abbrev pub no_savings : SavingsData fl
  no_savings = record {
    total_savings = zero_cost fl;
    spot_savings = zero_cost fl;
    sharing_savings = zero_cost fl;
    autoscaling_savings = zero_cost fl;
    waste_eliminated = zero_cost fl;
    savings_percentage = zero_cost fl;
    baseline_cost = zero_cost fl;
  }

  abbrev pub add_saving : String → fl.F → SavingsData fl → SavingsData fl
  add_saving kind amount s =
      let total = fl.add s.total_savings amount in
      if str_eq kind "spot"
      then record s { total_savings = total; spot_savings = amount }
      else if str_eq kind "sharing"
      then record s { total_savings = total; sharing_savings = amount }
      else if str_eq kind "autoscaling"
      then record s { total_savings = total; autoscaling_savings = amount }
      else if str_eq kind "waste"
      then record s { total_savings = total; waste_eliminated = amount }
      else record s { total_savings = total }

  unfoldable pub add_savings : Entries fl.F → SavingsData fl → SavingsData fl
  add_savings [] s = s
  add_savings (e ∷ es) s = add_savings es (add_saving e.key e.value s)

  abbrev pub against_baseline : fl.F → SavingsData fl → SavingsData fl
  against_baseline current s =
      let baseline = fl.add current s.total_savings in
      record s {
        baseline_cost = baseline;
        savings_percentage =
            (if fl.lt (zero_cost fl) baseline
              then fl.mul (fl.div s.total_savings baseline) (fl.of_int (pos 100))
              else s.savings_percentage);
      }

  abbrev pub savings_of : fl.F → Result (Entries fl.F) → Result (SavingsData fl)
  savings_of current (err e) = err e
  savings_of current (ok amounts) = ok (against_baseline current (add_savings amounts no_savings))

  unfoldable pub calculate_savings :
      Option (CostDb fl) → Calendar fl → Time → fl.F → Result (SavingsData fl)
  unfolding add_savings
  calculate_savings none calendar now current = ok no_savings
  calculate_savings (some db) calendar now current =
      savings_of current (db.total_savings (calendar.days_before 30 now) now)

  -- An error of `calculateSavings` is logged, and the status has no savings.
  abbrev pub savings_or_none : Result (SavingsData fl) → SavingsData fl
  savings_or_none (ok s) = s
  savings_or_none (err e) = no_savings
