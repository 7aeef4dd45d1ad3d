-- ===== src/Roi/Model.antt =====
-- The types of pkg/cost/roi_reporter.go.
use gpuautoscaler.Prelude.{ℤ, pos, String, List}
use gpuautoscaler.Prelude.Float.{Float64}
use gpuautoscaler.Prelude.Time.{Time, Duration}

pub record ReportPeriod : Type 0 where
  pub start_date : Time
  pub end_date : Time
  pub duration : Duration
  pub label : String

-- What the report reads of an autoscaling policy: the capacity types of its pools and the number of spot
-- nodes of its status.
pub record PolicySummary : Type 0 where
  pub name : String
  pub capacity_types : List String
  pub spot_nodes : ℤ

pub record SharingPolicy : Type 0 where
  pub name : String
  pub strategy : String

module _ (fl : Float64) where
  pub record SavingsBreakdown : Type 0 where
    pub spot_instance_savings : fl.F
    pub gpu_sharing_savings : fl.F
    pub autoscaling_savings : fl.F
    pub waste_elimination_savings : fl.F
    pub idle_resource_savings : fl.F

  abbrev pub no_breakdown : SavingsBreakdown
  no_breakdown = record {
    spot_instance_savings = fl.of_int (pos 0);
    gpu_sharing_savings = fl.of_int (pos 0);
    autoscaling_savings = fl.of_int (pos 0);
    waste_elimination_savings = fl.of_int (pos 0);
    idle_resource_savings = fl.of_int (pos 0);
  }

  pub record RoiMetrics : Type 0 where
    pub investment_cost : fl.F
    pub monthly_savings : fl.F
    pub roi_percentage : fl.F
    pub payback_period_days : ℤ
    pub projected_annual_savings : fl.F

  -- The description is formatted from the number of nodes or the strategy, and the policy's name.
  pub record OptimizationImpact : Type 0 where
    pub type : String
    pub policy : String
    pub strategy : String
    pub savings_amount : fl.F
    pub resources_impacted : ℤ
    pub timestamp : Time

  pub record CostRecommendation : Type 0 where
    pub priority : String
    pub type : String
    pub description : String
    pub estimated_savings : fl.F
    pub implementation_effort : String

  pub record RoiReport : Type 0 where
    pub period : ReportPeriod
    pub total_savings : fl.F
    pub savings_breakdown : SavingsBreakdown
    pub actual_cost : fl.F
    pub baseline_cost : fl.F
    pub savings_percentage : fl.F
    pub roi_metrics : RoiMetrics
    pub optimizations : List OptimizationImpact
    pub recommendations : List CostRecommendation
