-- ===== src/Webhook/Examples.antt =====
-- Tests of pkg/webhook/mutating_webhook.go, and its theorems at a pod.
use gpuautoscaler.Prelude.{
  ◌≡◌, refl, ℤ, pos, implies, true, false, none, some, [], ◌∷◌, entry, String, str_eq,
}
use gpuautoscaler.Prelude.Results.{ok}
use gpuautoscaler.Kube.{Pod, running, gpu_resource, text_at, memory_resource}
use gpuautoscaler.Sharing.Mps.{workload_type, default_mps_config, convert_pod_to_mps}
use gpuautoscaler.Sharing.TimeSlicing.{convert_pod_to_time_slicing}
use gpuautoscaler.Sharing.Savings.{gpu_request, memory_request}
use gpuautoscaler.Sharing.Kept.{IsOutcome, containers_of, convert_pod-IsOutcome}
use gpuautoscaler.Webhook.Handler.{
  GpuOptimizationWebhook, allowed, handle, select_optimization_strategy,
}
use gpuautoscaler.Webhook.Panics.{is_patched, goes_to_mps, is_panic, handle-unpatched}
use gpuautoscaler.Webhook.Strategy.{suits, select_optimization_strategy-suits}

abbrev pod_of : String → Pod
pod_of kind = record {
  name = "p";
  namespace = "default";
  node_name = "";
  phase = running;
  labels = some (entry workload_type kind ∷ []);
  annotations = none;
  containers =
      record {
        requests = some (entry gpu_resource (pos 1) ∷ entry memory_resource (pos 1024) ∷ []);
        limits = some (entry gpu_resource (pos 1) ∷ []);
      }
      ∷ [];
  priority = none;
  created = pos 0;
  start_time = none;
  node_selector = none;
  tolerations = [];
}

abbrev one : ℤ → String
one n = "1"

abbrev all_on : GpuOptimizationWebhook
all_on = record { enable_mig = true; enable_mps = true; enable_ts = true }

abbrev mps_on : GpuOptimizationWebhook
mps_on = record { enable_mig = false; enable_mps = true; enable_ts = false }

strategies :
    (select_optimization_strategy all_on (pod_of "inference") ≡ "mig")
    × (select_optimization_strategy mps_on (pod_of "inference") ≡ "mps")
    × (select_optimization_strategy all_on (pod_of "training") ≡ "exclusive")
unfolding select_optimization_strategy
strategies = (refl, refl, refl)

training_response :
    handle all_on one none none (ok (pod_of "training")) ≡ some (allowed "no optimizations applied")
unfolding handle
training_response = refl

-- With a timestamp the pod would be changed.
stamped_response :
    is_patched (handle mps_on one (some "2024-01-01") none (ok (pod_of "inference"))) ≡ true
unfolding handle
stamped_response = refl

handle-unpatched_example :
    (is_patched (handle mps_on one none none (ok (pod_of "inference"))) ≡ false)
    × (implies
          (goes_to_mps mps_on (pod_of "inference"))
          (is_panic (handle mps_on one none none (ok (pod_of "inference"))))
        ≡ true)
handle-unpatched_example =
    handle-unpatched mps_on one none (ok (pod_of "inference")) (pod_of "inference")

select_optimization_strategy-suits_example :
    let pod = pod_of "inference" in
    (suits mps_on
        (gpu_request (pos 0) pod.containers)
        (memory_request (pos 0) pod.containers)
        (text_at workload_type pod.labels)
        (str_eq (text_at "gpu-autoscaler.io/sharing" pod.annotations) "enabled")
        (select_optimization_strategy mps_on pod)
      ≡ true)
    × (implies
          (str_eq (text_at workload_type pod.labels) "training")
          (str_eq (select_optimization_strategy mps_on pod) "exclusive")
        ≡ true)
select_optimization_strategy-suits_example =
    select_optimization_strategy-suits mps_on (pod_of "inference") refl

convert_pod-IsOutcome_example :
    IsOutcome
      (pod_of "batch").containers
      (containers_of (convert_pod_to_mps one (pod_of "batch") default_mps_config))
    × IsOutcome
        (pod_of "batch").containers
        (containers_of (convert_pod_to_time_slicing one (pod_of "batch")))
convert_pod-IsOutcome_example = convert_pod-IsOutcome one (pod_of "batch") default_mps_config
