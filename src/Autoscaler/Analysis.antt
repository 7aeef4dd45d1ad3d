-- ===== src/Autoscaler/Analysis.antt =====
-- `analyzeClusterState` when it gets the API's lists and prediction is off.
use gpuautoscaler.Prelude.{
  ◌≤◌, ◌^◌, ◌≡◌, refl, pos, ◌≤ℤ◌, List, [], ◌∷◌, length, length-keep-le, keep, arith, false, String,
}
use gpuautoscaler.Prelude.Float.{Float64, IsIeee}
use gpuautoscaler.Prelude.Results.{Result, ok}
use gpuautoscaler.Kube.{Pod, Node}
use gpuautoscaler.Autoscaler.Model.{AutoscalerConfig, Controller, ScalingDecision, GpuMetrics}
use gpuautoscaler.Autoscaler.Observe.{
  get_gpu_nodes, get_pending_gpu_pods, has_gpu_capacity, is_pending_gpu_pod,
  count_underutilized_nodes, get_average_gpu_utilization,
}
use gpuautoscaler.Autoscaler.Decide.{Sight, decide, or_none, analyze_cluster_state}
use gpuautoscaler.Autoscaler.Targets.{IsBounded, decide-IsBounded}

module _ (fl : Float64) where
  count_underutilized_nodes-le :
      (config : AutoscalerConfig fl) (metrics_for : String → Result (List (GpuMetrics fl)))
      (nodes : List Node)
      → count_underutilized_nodes fl config metrics_for nodes ≤ length nodes
  unfolding count_underutilized_nodes
  count_underutilized_nodes-le config metrics_for [] = omega arith
  count_underutilized_nodes-le config metrics_for (n ∷ ns) =
      ground (arith, count_underutilized_nodes-le config metrics_for ns)

  -- If the API answers, prediction is off and the number of GPU nodes lies between `MinNodes` and
  -- `MaxNodes`, `analyzeClusterState` returns a decision whose desired node count lies between them too:
  -- a scale-up aims at the present count or more, at most one node more for every four pending pods
  -- (rounded up); a scale-down at the present count or less, by at most a fifth; no action at just it.
  pub analyze_cluster_state-IsBounded :
      (laws : IsIeee fl) (r : Controller fl) (s : Sight fl) (listed_nodes : List Node)
      (listed_pods : List Pod)
      → s.nodes ≡ ok listed_nodes
      → s.pods ≡ ok listed_pods
      → r.config.enable_predictive_scaling ≡ false
      → length listed_nodes ≤ 2 ^ 52
      → length listed_pods ≤ 2 ^ 52
      → r.config.min_nodes ≤ℤ pos (length (keep has_gpu_capacity listed_nodes))
      → pos (length (keep has_gpu_capacity listed_nodes)) ≤ℤ r.config.max_nodes
      → (d : ScalingDecision fl) × (analyze_cluster_state fl r s ≡ ok d)
        × IsBounded fl r.config
            (length (keep has_gpu_capacity listed_nodes))
            (length (keep is_pending_gpu_pod listed_pods))
            d
  unfolding analyze_cluster_state get_gpu_nodes get_pending_gpu_pods
  analyze_cluster_state-IsBounded laws r s listed_nodes listed_pods at_nodes at_pods off few_nodes
        few_pods min max =
      let nodes = keep has_gpu_capacity listed_nodes in
      let pods = keep is_pending_gpu_pod listed_pods in
      let u = or_none fl (get_average_gpu_utilization fl s.gpu_metrics) in
      let under = count_underutilized_nodes fl r.config s.node_metrics nodes in
      (
        decide fl r s.now nodes pods u under,
        rw (at_nodes, at_pods, off) refl,
        decide-IsBounded fl laws r s.now nodes pods u under
            (omega (arith, length-keep-le has_gpu_capacity listed_nodes))
            (omega (arith, length-keep-le is_pending_gpu_pod listed_pods))
            (count_underutilized_nodes-le r.config s.node_metrics nodes) min max,
      )
