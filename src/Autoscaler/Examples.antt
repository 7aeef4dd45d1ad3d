-- ===== src/Autoscaler/Examples.antt =====
-- Tests of pkg/autoscaler/controller.go, and its theorems at a small cluster.
use gpuautoscaler.Prelude.{
  str_eq, if◌then◌else◌, lookup, ◌≡◌, ◌↔◌, refl, pos, ◌-ℤ◌, true, false, none, some, List, [], ◌∷◌,
  map, keep, length, arith, entry, String, pos_part,
}
use gpuautoscaler.Prelude.Fixed.{fixed, fixed-IsIeee}
use gpuautoscaler.Prelude.Results.{message, ok}
use gpuautoscaler.Prelude.Time.{Time}
use gpuautoscaler.Kube.{Pod, Node, pending, gpu_resource}
use gpuautoscaler.Autoscaler.Model.{
  AutoscalerConfig, Controller, ScalingDecision, capacity_type_label, scale_up, cluster_stable,
}
use gpuautoscaler.Autoscaler.Observe.{has_gpu_capacity, is_pending_gpu_pod}
use gpuautoscaler.Autoscaler.Decide.{Sight, analyze_cluster_state}
use gpuautoscaler.Autoscaler.Execute.{
  Outside, DrainAnswers, drain_node, remove_nodes, select_nodes_to_remove, reconcile,
}
use gpuautoscaler.Autoscaler.Targets.{IsBounded}
use gpuautoscaler.Autoscaler.Analysis.{analyze_cluster_state-IsBounded}
use gpuautoscaler.Autoscaler.Removal.{take, removable, select_nodes_to_remove-take}
use gpuautoscaler.Autoscaler.Draining.{
  succeeds, removals, drains_well, Empties, remove_nodes-removals, drain_node-succeeds_iff,
}
use gpuautoscaler.Autoscaler.History.{IsReconciled, reconcile-IsReconciled}

abbrev pod_asking : String → String → Time → Pod
pod_asking name device created = record {
  name = name;
  namespace = "default";
  node_name = "";
  phase = pending;
  labels = none;
  annotations = none;
  containers = record { requests = some (entry device (pos 1) ∷ []); limits = none } ∷ [];
  priority = none;
  created = created;
  start_time = none;
  node_selector = none;
  tolerations = [];
}

abbrev host : String → String → Node
host name kind = record {
  name = name;
  labels = some (entry capacity_type_label kind ∷ []);
  annotations = none;
  capacity = some (entry gpu_resource (pos 8) ∷ []);
  unschedulable = false;
}

abbrev two_nodes : List Node
two_nodes = host "a" "on-demand" ∷ host "b" "spot" ∷ []

abbrev waiting : List Pod
waiting = pod_asking "p" gpu_resource (pos 100) ∷ pod_asking "q" gpu_resource (pos 200) ∷ []

abbrev settings : AutoscalerConfig fixed
settings = record {
  reconcile_interval = pos 30;
  scale_up_threshold = fixed.lit 8 1;
  scale_down_threshold = fixed.lit 2 1;
  scale_up_cooldown = pos 0;
  scale_down_cooldown = pos 0;
  pending_pod_timeout = pos 50;
  max_nodes = pos 10;
  min_nodes = pos 1;
  spot_instance_percentage = fixed.lit 6 1;
  enable_predictive_scaling = false;
  node_pools =
      record { name = "gpu-spot"; min_size = pos 0; max_size = pos 5; capacity_type = "spot" } ∷ [];
}

abbrev idle : Controller fixed
idle = record {
  config = settings;
  last_scale_up_time = pos 0;
  last_scale_down_time = pos 0;
  scaling_history = [];
}

abbrev sight : Sight fixed
sight = record {
  nodes = ok two_nodes;
  pods = ok waiting;
  gpu_metrics = ok [];
  node_metrics = λ name. ok [];
  prediction = record {
    predicted_utilization = fixed.lit 9 1;
    predicted_pods = pos 20;
    recommended_nodes = pos 4;
    should_pre_warm = true;
    confidence = fixed.lit 8 1;
    time_until_peak = pos 0;
  };
  now = pos 1000;
}

-- The drain of "a" succeeds at the second tick; "b" cannot be marked unschedulable.
abbrev drains : String → DrainAnswers
drains name =
    if str_eq name "a"
    then record { updated = none; listed = ok waiting; polled = ok waiting ∷ ok [] ∷ [] }
    else record { updated = some (message "conflict"); listed = ok []; polled = [] }

abbrev outside : Outside
outside = record {
  scale_up_answer = none;
  nodes_later = ok two_nodes;
  drains = drains;
  executed_at = pos 1001;
  recorded_at = pos 1002;
}

analyze_cluster_state-IsBounded_example :
    (d : ScalingDecision fixed) × (analyze_cluster_state fixed idle sight ≡ ok d)
    × IsBounded fixed settings
        (length (keep has_gpu_capacity two_nodes))
        (length (keep is_pending_gpu_pod waiting))
        d
unfolding lookup
analyze_cluster_state-IsBounded_example =
    analyze_cluster_state-IsBounded fixed fixed-IsIeee idle sight two_nodes waiting refl refl refl
      (omega arith) (omega arith) (omega arith) (omega arith)

reconcile-IsReconciled_example : IsReconciled fixed idle (reconcile fixed idle sight outside)
reconcile-IsReconciled_example = reconcile-IsReconciled fixed idle sight outside (omega arith)

select_nodes_to_remove-take_example :
    select_nodes_to_remove two_nodes (pos 1)
    ≡ take (pos_part (pos (length two_nodes) -ℤ pos 1)) (removable two_nodes)
unfolding ◌-ℤ◌
select_nodes_to_remove-take_example = select_nodes_to_remove-take two_nodes (pos 1) (omega arith)

remove_nodes-removals_example :
    removals (remove_nodes drains two_nodes)
    ≡ map (λ n. n.name) (keep (drains_well drains) two_nodes)
remove_nodes-removals_example = remove_nodes-removals drains two_nodes

drain_node-succeeds_iff_example :
    (succeeds (drain_node (drains "a") (host "a" "on-demand")) ≡ true) ↔ (
      ((drains "a").updated ≡ none)
      × ((pods : List Pod) × ((drains "a").listed ≡ ok pods))
      × Empties (drains "a").polled)
drain_node-succeeds_iff_example = drain_node-succeeds_iff (drains "a") (host "a" "on-demand")

abbrev sliced : Pod
sliced = pod_asking "s" "nvidia.com/mig-1g.5gb" (pos 0)

abbrev five_more : ScalingDecision fixed
five_more = record {
  action = scale_up;
  reason = cluster_stable;
  desired_node_count = pos 7;
  capacity_type = "spot";
  node_pool = "gpu-spot";
  priority = pos 0;
  gpu_utilization = fixed.lit 9 1;
  pending_pods = 20;
  underutilized_nodes = 0;
}
