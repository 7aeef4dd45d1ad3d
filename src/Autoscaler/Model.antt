-- ===== src/Autoscaler/Model.antt =====
-- The data of pkg/autoscaler/controller.go. Of a node pool the fields that only the cloud provider
-- reads are left out; a reason that the code formats as a text is a constructor with its values.
use gpuautoscaler.Prelude.{ℕ, ℤ, Bool, String, List}
use gpuautoscaler.Prelude.Float.{Float64}
use gpuautoscaler.Prelude.Time.{Time, Duration}

pub record NodePoolConfig : Type 0 where
  pub name : String
  pub min_size : ℤ
  pub max_size : ℤ
  pub capacity_type : String

abbrev pub capacity_type_label : String
capacity_type_label = "gpu-autoscaler.io/capacity-type"

abbrev pub spot : String
spot = "spot"

abbrev pub on_demand : String
on_demand = "on-demand"

pub data ScalingAction : Type 0 where
  scale_up scale_down no_action : ScalingAction

module _ (fl : Float64) where
  pub record AutoscalerConfig : Type 0 where
    pub reconcile_interval : Duration
    pub scale_up_threshold : fl.F
    pub scale_down_threshold : fl.F
    pub scale_up_cooldown : Duration
    pub scale_down_cooldown : Duration
    pub pending_pod_timeout : Duration
    pub max_nodes : ℤ
    pub min_nodes : ℤ
    pub spot_instance_percentage : fl.F
    pub enable_predictive_scaling : Bool
    pub node_pools : List NodePoolConfig

  pub data Reason : Type 0 where
    cluster_stable : Reason
    pending_pods_waiting : ℕ → Reason
    utilization_exceeds : fl.F → fl.F → Reason
    utilization_below : fl.F → fl.F → ℕ → Reason
    load_predicted : fl.F → Reason

  pub record ScalingEvent : Type 0 where
    pub timestamp : Time
    pub action : ScalingAction
    pub reason : Reason
    pub node_count : ℤ
    pub capacity_type : String
    pub success : Bool

  pub record ScalingDecision : Type 0 where
    pub action : ScalingAction
    pub reason : Reason
    pub desired_node_count : ℤ
    pub capacity_type : String
    pub node_pool : String
    pub priority : ℤ
    pub gpu_utilization : fl.F
    pub pending_pods : ℕ
    pub underutilized_nodes : ℕ

  -- `ScalingPrediction`, without its reason, which is only shown.
  pub record ScalingPrediction : Type 0 where
    pub predicted_utilization : fl.F
    pub predicted_pods : ℤ
    pub recommended_nodes : ℤ
    pub should_pre_warm : Bool
    pub confidence : fl.F
    pub time_until_peak : Duration

  -- The fields of `metrics.GPUMetrics` that the controller and the predictive scaler read.
  pub record GpuMetrics : Type 0 where
    pub pod_name : String
    pub node_name : String
    pub gpu_utilization : fl.F

  -- The state that `AutoscalerController` keeps between calls.
  pub record Controller : Type 0 where
    pub config : AutoscalerConfig
    pub last_scale_up_time : Time
    pub last_scale_down_time : Time
    pub scaling_history : List ScalingEvent
