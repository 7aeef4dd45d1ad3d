-- ===== src/Metrics/Model.antt =====
-- The types of pkg/metrics/collector.go, and what Prometheus is asked and answers. A query is a
-- constructor with the values that its text is formatted from.
use gpuautoscaler.Prelude.{
  ℤ, Bool, true, false, String, List, [], ◌∷◌, GoMap, map_get, lookup, if◌then◌else◌,
}
use gpuautoscaler.Prelude.Float.{Float64}
use gpuautoscaler.Prelude.Time.{Time}
use gpuautoscaler.Kube.{Container, gpu_resource}
use gpuautoscaler.Budget.Spend.{is_present}

pub data Query : Type 0 where
  current_gpu_util : Query
  avg_gpu_util : ℤ → Query
  fb_used : String → ℤ → Query
  fb_total : String → ℤ → Query
  power_usage : String → ℤ → Query
  gpu_temp : String → ℤ → Query
  avg_memory : String → String → ℤ → Query

module _ (fl : Float64) where
  pub record Sample : Type 0 where
    pub metric : GoMap String
    pub value : fl.F

  -- `model.Value`: a vector, or a value of another type.
  pub data Value : Type 0 where
    vector : List Sample → Value
    another : Value

  pub record GpuMetrics : Type 0 where
    pub pod_name : String
    pub pod_namespace : String
    pub node_name : String
    pub gpu_index : ℤ
    pub gpu_utilization : fl.F
    pub gpu_memory_used : fl.F
    pub gpu_memory_total : fl.F
    pub gpu_memory_util : fl.F
    pub gpu_power_usage : fl.F
    pub gpu_temperature : fl.F
    pub timestamp : Time

  pub record WasteMetrics : Type 0 where
    pub pod_name : String
    pub pod_namespace : String
    pub node_name : String
    pub gpu_index : ℤ
    pub allocated_gpus : ℤ
    pub avg_utilization : fl.F
    pub avg_memory_util : fl.F
    pub waste_score : fl.F
    pub recommendation : String
    pub estimated_monthly_cost : fl.F

-- `hasGPUAllocation`, and `hasGPURequest` of pkg/controller/gpu_controller.go.
unfoldable pub has_gpu_allocation : List Container → Bool
unfolding lookup
has_gpu_allocation [] = false
has_gpu_allocation (c ∷ cs) =
    let rest = has_gpu_allocation cs in
    if is_present (map_get gpu_resource c.requests)
    then true
    else if is_present (map_get gpu_resource c.limits)
    then true
    else rest
