-- ===== src/Gpu/Examples.antt =====
-- Tests of pkg/controller/gpu_controller.go, and its theorems at two pods of one node.
use gpuautoscaler.Prelude.{
  ◌*◌, length, ◌≡◌, ◌⊎◌, refl, pos, true, false, none, some, String, [], ◌∷◌, All, entry,
}
use gpuautoscaler.Prelude.Fixed.{fixed}
use gpuautoscaler.Prelude.Results.{ok, message}
use gpuautoscaler.Prelude.Time.{minute}
use gpuautoscaler.Kube.{Pod, running, gpu_resource}
use gpuautoscaler.Metrics.Model.{
  current_gpu_util, avg_gpu_util, fb_used, fb_total, power_usage, gpu_temp, avg_memory, Sample,
  vector, another,
}
use gpuautoscaler.Metrics.Collector.{Prometheus, get_pod_for_gpu}
use gpuautoscaler.Gpu.Controller.{
  reconcile_interval, Outside, has_gpu_request, found, failed, not_found, stopped, reconcile,
}
use gpuautoscaler.Gpu.Unseen.{IsUnseen, reconcile-unseen}
use gpuautoscaler.Gpu.Answers.{IsExamined, IsWasteful, reconcile-IsAnswer}

abbrev pod_called : String → Pod
pod_called name = record {
  name = name;
  namespace = "ml";
  node_name = "a";
  phase = running;
  labels = none;
  annotations = none;
  containers = record { requests = some (entry gpu_resource (pos 1) ∷ []); limits = none } ∷ [];
  priority = none;
  created = pos 0;
  start_time = some (pos 0);
  node_selector = none;
  tolerations = [];
}

abbrev idle_gpu : Sample fixed
idle_gpu = record {
  metric = some (entry "kubernetes_node" "a" ∷ entry "gpu" "1" ∷ []);
  value = fixed.of_int (pos 0);
}

abbrev answers : Prometheus fixed
answers (avg_gpu_util n) = ok (vector (idle_gpu ∷ []))
answers current_gpu_util = ok (vector (idle_gpu ∷ []))
answers (fb_used node gpu) = ok another
answers (fb_total node gpu) = ok another
answers (power_usage node gpu) = ok another
answers (gpu_temp node gpu) = ok another
answers (avg_memory node gpu n) = ok another

abbrev outside : Outside fixed
outside = record {
  scan = λ s. pos 1;
  prom = answers;
  pods_on = λ node. ok (pod_called "first" ∷ pod_called "second" ∷ []);
  now = pos (6 * minute);
}

second-IsUnseen : IsUnseen outside.pods_on (pod_called "second")
unfolding get_pod_for_gpu
second-IsUnseen node p h name namespace = cc

-- The idle GPU is the second pod's; the recommendation goes to the first.
one_recommended :
    (length (reconcile fixed outside (found (pod_called "first"))).recommended ≡ 1)
    × (length (reconcile fixed outside (found (pod_called "second"))).recommended ≡ 0)
unfolding reconcile
one_recommended = (refl, refl)

reconcile-unseen_example :
    ((reconcile fixed outside (found (pod_called "second"))).metrics ≡ [])
    × ((reconcile fixed outside (found (pod_called "second"))).recommended ≡ [])
reconcile-unseen_example = reconcile-unseen fixed outside (pod_called "second") second-IsUnseen

reconcile-IsAnswer_example :
    (reconcile fixed outside not_found ≡ stopped fixed none)
    × (reconcile fixed outside (failed (message "down")) ≡ stopped fixed (some (message "down")))
    × (has_gpu_request (pod_called "first") ≡ false
        → reconcile fixed outside (found (pod_called "first")) ≡ stopped fixed none)
    × (has_gpu_request (pod_called "first") ≡ true
        → let r = reconcile fixed outside (found (pod_called "first")) in
          (r.requeue_after ≡ reconcile_interval)
          × (r.failure ≡ none)
          × All (IsWasteful fixed (pod_called "first")) r.recommended
          × ((r.recommended ≡ []) ⊎ IsExamined outside.now (pod_called "first")))
reconcile-IsAnswer_example = reconcile-IsAnswer fixed outside (pod_called "first") (message "down")
