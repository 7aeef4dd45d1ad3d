-- ===== src/Budget/Model.antt =====
-- The parts of pkg/apis/v1alpha1/costbudget_types.go and autoscalingpolicy_types.go that
-- pkg/cost/budget_controller.go reads or writes. Of an alert's channel all but its type is left out,
-- and of a node pool what throttling neither reads nor writes.
use gpuautoscaler.Prelude.{ℤ, Bool, String, List, Option, GoMap, Entries}
use gpuautoscaler.Prelude.Float.{Float64}
use gpuautoscaler.Prelude.Time.{Time}

pub record BudgetScope : Type 0 where
  pub namespaces : List String
  pub labels : GoMap String
  pub experiment_id : String
  pub teams : List String

pub record ThrottleConfig : Type 0 where
  pub max_spot_instances : Option ℤ
  pub block_spot_creation : Bool

pub record BudgetEnforcement : Type 0 where
  pub action : String
  pub grace_period_minutes : ℤ
  pub throttle_config : Option ThrottleConfig

pub record NodePoolSpec : Type 0 where
  pub name : String
  pub min_size : ℤ
  pub max_size : ℤ
  pub capacity_type : String

pub record AutoscalingPolicy : Type 0 where
  pub name : String
  pub namespace : String
  pub node_pools : List NodePoolSpec

module _ (fl : Float64) where
  pub record BudgetAlert : Type 0 where
    pub name : String
    pub threshold_percent : fl.F
    pub channels : List String
    pub severity : String

  pub record AlertFired : Type 0 where
    pub alert_name : String
    pub timestamp : Time
    pub threshold : fl.F
    pub acknowledged : Bool

  pub record CostBudgetSpec : Type 0 where
    pub monthly_limit : fl.F
    pub scope : BudgetScope
    pub alerts : List (BudgetAlert)
    pub enforcement : Option BudgetEnforcement
    pub start_date : Option Time
    pub enabled : Bool

  pub record CostBreakdown : Type 0 where
    pub by_namespace : Entries fl.F
    pub by_label : Entries fl.F
    pub by_instance_type : Entries fl.F
    pub spot_vs_on_demand : Entries fl.F

  pub record CostBudgetStatus : Type 0 where
    pub current_spend : fl.F
    pub percentage_used : fl.F
    pub budget_status : String
    pub projected_monthly_spend : fl.F
    pub days_remaining : ℤ
    pub alerts_fired : List (AlertFired)
    pub enforcement_active : Bool
    pub exceeded_since : Option Time
    pub last_updated : Time
    pub breakdown : CostBreakdown

  pub record CostBudget : Type 0 where
    pub name : String
    pub spec : CostBudgetSpec
    pub status : CostBudgetStatus

  -- `AlertMessage` of pkg/cost/alerter.go, without its time.
  pub record AlertMessage : Type 0 where
    pub budget_name : String
    pub alert_name : String
    pub severity : String
    pub current_spend : fl.F
    pub monthly_limit : fl.F
    pub percentage_used : fl.F
    pub threshold : fl.F
