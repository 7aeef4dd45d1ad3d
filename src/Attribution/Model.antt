-- ===== src/Attribution/Model.antt =====
-- The types of the cost attribution controller and of costattribution_types.go.
use gpuautoscaler.Prelude.{ℕ, zero, suc, ℤ, pos, String, List, [], ◌∷◌, Entries}
use gpuautoscaler.Prelude.Float.{Float64}
use gpuautoscaler.Prelude.Results.{Result}
use gpuautoscaler.Prelude.Time.{Time}
use gpuautoscaler.Budget.Spend.{Records}

-- `for i := n - 1; i >= 0; i--`, a value for each i.
unfoldable pub count_down {ℓ} : {A : Type ℓ} → ℕ → (ℕ → A) → List A
count_down zero f = []
count_down (suc i) f = f i ∷ count_down i f

module _ (fl : Float64) where
  abbrev pub zero_cost : fl.F
  zero_cost = fl.of_int (pos 0)

  pub record PodCostInfo : Type 0 where
    pub pod_name : String
    pub gpu_type : String
    pub gpu_count : ℤ
    pub start_time : Time
    pub cost : fl.F
    pub hourly_rate : fl.F
    pub capacity_type : String
    pub sharing_mode : String
    pub node : String

  pub record HourlyCost : Type 0 where
    pub timestamp : Time
    pub cost : fl.F
    pub gpu_hours : fl.F

  pub record DailyCost : Type 0 where
    pub date : String
    pub cost : fl.F
    pub gpu_hours : fl.F
    pub peak_gpus : ℤ

  pub record CostDataPoint : Type 0 where
    pub timestamp : Time
    pub cost : fl.F
    pub rate : fl.F
    pub gpus : ℤ
    pub pods : ℤ

  pub record DetailedBreakdown : Type 0 where
    pub by_pod : Entries PodCostInfo
    pub by_gpu_type : Entries fl.F
    pub by_capacity_type : Entries fl.F
    pub by_node : Entries fl.F
    pub by_hour : List HourlyCost
    pub by_day : List DailyCost

  pub record SavingsData : Type 0 where
    pub total_savings : fl.F
    pub spot_savings : fl.F
    pub sharing_savings : fl.F
    pub autoscaling_savings : fl.F
    pub waste_eliminated : fl.F
    pub savings_percentage : fl.F
    pub baseline_cost : fl.F

  pub record CostAttributionStatus : Type 0 where
    pub total_cost : fl.F
    pub daily_cost : fl.F
    pub monthly_cost : fl.F
    pub hourly_cost : fl.F
    pub active_pods : ℕ
    pub active_gpus : ℤ
    pub gpu_hours : fl.F
    pub cost_per_gpu_hour : fl.F
    pub last_updated : Time
    pub detailed_breakdown : DetailedBreakdown
    pub historical_data : List CostDataPoint
    pub savings : SavingsData

  -- The database: costs by namespace and team, and savings by type in a range of times.
  pub record CostDb : Type 0 where
    pub records : Records fl
    pub total_savings : Time → Time → Result (Entries fl.F)

  pub record Calendar : Type 0 where
    pub start_of_day : Time → Time
    pub start_of_month : Time → Time
    -- `AddDate(0, 0, -n)`, and the day it is, formatted.
    pub days_before : ℕ → Time → Time
    pub date_of : Time → String
