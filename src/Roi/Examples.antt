-- ===== src/Roi/Examples.antt =====
-- Tests of pkg/cost/roi_reporter.go, and the theorem about it at a map of savings.
use gpuautoscaler.Prelude.{◌*◌, ◌≡◌, refl, pos, some, [], ◌∷◌, map, entry}
use gpuautoscaler.Prelude.Fixed.{fixed}
use gpuautoscaler.Prelude.Results.{ok, err, message}
use gpuautoscaler.Prelude.Time.{minute}
use gpuautoscaler.Cost.Pricing.{new_pricing_client}
use gpuautoscaler.Cost.Tracker.{CostTracker}
use gpuautoscaler.Attribution.Model.{Calendar}
use gpuautoscaler.Attribution.Savings.{calculate_savings}
use gpuautoscaler.Roi.Model.{ReportPeriod, CostRecommendation}
use gpuautoscaler.Roi.Savings.{SavingsDb, calculate_total_savings}
use gpuautoscaler.Roi.Report.{generate_recommendations}
use gpuautoscaler.Roi.Agreement.{SameSavings, calculate_savings-calculate_total_savings}

abbrev tracker : CostTracker fixed
tracker = record {
  pod_cost_cache = [];
  pricing_client = new_pricing_client fixed "aws" "us-east-1";
  hourly_cost_gauge = fixed.lit 0 0;
  total_cost_gauge = fixed.lit 0 0;
  inserted = [];
}

abbrev db : SavingsDb fixed
db from to = ok (entry "spot" (fixed.of_int (pos 7)) ∷ entry "idle" (fixed.of_int (pos 2)) ∷ [])

abbrev calendar : Calendar fixed
calendar = record {
  start_of_day = λ t. t;
  start_of_month = λ t. t;
  days_before = λ n t. pos 0;
  date_of = λ t. "";
}

abbrev month : ReportPeriod
month = record {
  start_date = pos 0;
  end_date = pos 100;
  duration = pos (43_200 * minute);
  label = "Last 30 Days";
}

calculate_savings-calculate_total_savings_example :
    SameSavings fixed
      (calculate_savings fixed
        (some (record {
          records = record {
            by_namespace = λ _ _ _. err (message "");
            by_team = λ _ _ _. err (message "");
          };
          total_savings = db;
        }))
        calendar
        (pos 100)
        (fixed.of_int (pos 1)))
      (calculate_total_savings fixed (some db) tracker month)
calculate_savings-calculate_total_savings_example =
    calculate_savings-calculate_total_savings fixed db
      (record { by_namespace = λ _ _ _. err (message ""); by_team = λ _ _ _. err (message "") })
      calendar tracker (pos 100) (fixed.of_int (pos 1)) month refl refl

-- A cluster that has cost nothing is still told to review its use of large GPUs.
always_right_sizing :
    map
      (λ (r : CostRecommendation fixed). r.type)
      (generate_recommendations fixed (fixed.of_int (pos 0)) (fixed.of_int (pos 0)) (record {
        spot_instance_savings = fixed.of_int (pos 0);
        gpu_sharing_savings = fixed.of_int (pos 0);
        autoscaling_savings = fixed.of_int (pos 0);
        waste_elimination_savings = fixed.of_int (pos 0);
        idle_resource_savings = fixed.of_int (pos 0);
      }))
    ≡ "right-sizing" ∷ []
unfolding generate_recommendations
always_right_sizing = refl
