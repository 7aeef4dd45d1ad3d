-- ===== src/Roi/Report.antt =====
-- `GenerateReport` and the figures and recommendations that it puts together. The clock is read once, and
-- the lists of policies are arguments, an error of which leaves their part out.
use gpuautoscaler.Prelude.{
  ℤ, pos, add64, ltb_ℤ, Bool, true, false, Option, String, str_eq, List, [], ◌∷◌, ◌++◌,
  if◌then◌else◌,
}
use Prim.Native.String
use gpuautoscaler.Prelude.Float.{Float64}
use gpuautoscaler.Prelude.Results.{Result, ok, err, wrap_error, ◌>>=◌}
use gpuautoscaler.Prelude.Time.{Time}
use gpuautoscaler.Cost.Tracker.{CostTracker, get_total_cost, get_hourly_rate, hours}
use gpuautoscaler.Roi.Model.{
  ReportPeriod, PolicySummary, SharingPolicy, SavingsBreakdown, RoiMetrics, OptimizationImpact,
  CostRecommendation, RoiReport,
}
use gpuautoscaler.Roi.Savings.{SavingsDb, calculate_total_savings, sum_breakdown}

unfoldable pub has_spot : List String → Bool
has_spot [] = false
has_spot (t ∷ ts) = let rest = has_spot ts in if str_eq t "spot" then true else rest

module _ (fl : Float64) where
  abbrev pub calculate_roi_metrics : ReportPeriod → fl.F → RoiMetrics fl
  calculate_roi_metrics period total =
      let zero_cost = fl.of_int (pos 0) in
      let investment = fl.of_int (pos 300) in
      let days = fl.div (hours fl period.duration) (fl.of_int (pos 24)) in
      let monthly =
        if fl.lt zero_cost days
        then fl.mul (fl.div total days) (fl.of_int (pos 30))
        else zero_cost in
      let net = fl.sub monthly investment in
      record {
        investment_cost = investment;
        monthly_savings = monthly;
        roi_percentage =
            (if fl.lt zero_cost investment
              then fl.mul (fl.div net investment) (fl.of_int (pos 100))
              else zero_cost);
        payback_period_days =
            (if fl.lt investment monthly
              then (if fl.lt zero_cost net
                  then fl.trunc (fl.mul (fl.div investment net) (fl.of_int (pos 30)))
                  else pos 0)
              else pos 0);
        projected_annual_savings = fl.mul monthly (fl.of_int (pos 12));
      }

  -- The nodes of the status count if some pool is of spot capacity.
  abbrev pub spot_nodes_of : PolicySummary → ℤ
  spot_nodes_of p = if has_spot p.capacity_types then p.spot_nodes else pos 0

  unfoldable pub spot_impacts : Time → List PolicySummary → List (OptimizationImpact fl)
  unfolding has_spot
  spot_impacts now [] = []
  spot_impacts now (p ∷ ps) =
      let rest = spot_impacts now ps in
      if ltb_ℤ (pos 0) (spot_nodes_of p)
      then (record {
        type = "spot-instances";
        policy = p.name;
        strategy = "";
        savings_amount = fl.of_int (pos 0);
        resources_impacted = spot_nodes_of p;
        timestamp = now;
      })
        ∷ rest
      else rest

  unfoldable pub sharing_impacts : Time → List SharingPolicy → List (OptimizationImpact fl)
  sharing_impacts now [] = []
  sharing_impacts now (p ∷ ps) =
      (record {
        type = "gpu-sharing";
        policy = p.name;
        strategy = p.strategy;
        savings_amount = fl.of_int (pos 0);
        resources_impacted = pos 0;
        timestamp = now;
      })
      ∷ sharing_impacts now ps

  abbrev pub listed_or_none {ℓ} : {A : Type ℓ} → Result (List A) → List A
  listed_or_none (err e) = []
  listed_or_none (ok xs) = xs

  abbrev pub get_optimization_impacts :
      Time
      → Result (List PolicySummary)
      → Result (List SharingPolicy)
      → List (OptimizationImpact fl)
  get_optimization_impacts now policies sharing =
      spot_impacts now (listed_or_none policies) ++ sharing_impacts now (listed_or_none sharing)

  abbrev recommendation : String → String → String → fl.F → String → CostRecommendation fl
  recommendation priority type description savings effort = record {
    priority = priority;
    type = type;
    description = description;
    estimated_savings = savings;
    implementation_effort = effort;
  }

  abbrev pub listed_if {ℓ} : {A : Type ℓ} → Bool → A → List A → List A
  listed_if true x rest = x ∷ rest
  listed_if false x rest = rest

  unfoldable pub generate_recommendations :
      fl.F → fl.F → SavingsBreakdown fl → List (CostRecommendation fl)
  generate_recommendations hourly actual s =
      listed_if (fl.lt s.spot_instance_savings (fl.mul actual (fl.lit 3 1)))
        (recommendation "high" "spot-instances"
          "Increase spot instance usage to 60-70% of GPU fleet for non-critical workloads"
          (fl.mul actual (fl.lit 35 2)) "low")
        (listed_if (fl.lt s.gpu_sharing_savings (fl.mul actual (fl.lit 2 1)))
          (recommendation "high" "gpu-sharing"
            "Enable MIG or MPS for inference workloads to consolidate multiple jobs per GPU"
            (fl.mul actual (fl.lit 40 2)) "medium")
          (listed_if (fl.lt s.autoscaling_savings (fl.mul actual (fl.lit 15 2)))
            (recommendation "medium" "autoscaling"
              "Enable predictive autoscaling to scale down during off-peak hours"
              (fl.mul actual (fl.lit 25 2)) "low")
            (listed_if (fl.lt s.waste_elimination_savings (fl.mul hourly (fl.lit 1 1)))
              (recommendation "high" "idle-detection"
                "Identify and terminate idle GPU pods (< 20% utilization)"
                (fl.mul (fl.mul hourly (fl.of_int (pos 730))) (fl.lit 15 2)) "low")
              (listed_if (fl.lt (fl.of_int (pos 10_000)) actual)
                (recommendation "medium" "reserved-instances"
                  "Purchase reserved instances for 20-30% of baseline GPU capacity (1-3 year commitment)"
                  (fl.mul actual (fl.lit 15 2)) "medium")
                (recommendation "low" "right-sizing"
                    "Review workloads using high-end GPUs (A100/H100) that could run on cheaper alternatives (T4/L4)"
                    (fl.mul actual (fl.lit 10 2)) "high"
                  ∷ [])))))

  pub record Outside : Type 0 where
    pub db : Option (SavingsDb fl)
    pub tracker : CostTracker fl
    pub policies : Result (List PolicySummary)
    pub sharing_policies : Result (List SharingPolicy)
    pub now : Time

  abbrev pub report_of : Outside → ReportPeriod → SavingsBreakdown fl → RoiReport fl
  report_of o period s =
      let total = sum_breakdown fl s in
      let actual = get_total_cost fl o.tracker in
      let baseline = fl.add actual total in
      record {
        period = period;
        total_savings = total;
        savings_breakdown = s;
        actual_cost = actual;
        baseline_cost = baseline;
        savings_percentage =
            (if fl.lt (fl.of_int (pos 0)) baseline
              then fl.mul (fl.div total baseline) (fl.of_int (pos 100))
              else fl.of_int (pos 0));
        roi_metrics = calculate_roi_metrics period total;
        optimizations = get_optimization_impacts o.now o.policies o.sharing_policies;
        recommendations = generate_recommendations (get_hourly_rate fl o.tracker) actual s;
      }

  unfoldable pub generate_report : Outside → ReportPeriod → Result (RoiReport fl)
  unfolding calculate_total_savings get_total_cost get_hourly_rate spot_impacts sharing_impacts
      generate_recommendations
  generate_report o period = do
    savings ←
        wrap_error "failed to calculate savings" (calculate_total_savings fl o.db o.tracker period)
    ok (report_of o period savings)

  unfoldable pub format_lines :
      (ℤ → CostRecommendation fl → String) → ℤ → List (CostRecommendation fl) → String
  unfolding add64
  format_lines line i [] = ""
  format_lines line i (r ∷ rs) = String.◌++◌ (line i r) (format_lines line (add64 i (pos 1)) rs)

  -- The text of a recommendation with its number is an argument.
  abbrev pub format_recommendations :
      (ℤ → CostRecommendation fl → String) → List (CostRecommendation fl) → String
  format_recommendations line [] = "No additional recommendations at this time."
  format_recommendations line (r ∷ rs) = format_lines line (pos 1) (r ∷ rs)
