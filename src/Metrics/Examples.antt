-- ===== src/Metrics/Examples.antt =====
-- Tests of pkg/metrics/collector.go, and the theorem about it at a node with two GPUs.
use gpuautoscaler.Prelude.{◌≡◌, refl, pos, ℤ, none, some, String, List, [], ◌∷◌, map, All, entry}
use gpuautoscaler.Prelude.Fixed.{fixed, fixed-IsIeee}
use gpuautoscaler.Prelude.Results.{Result, ok, err, message}
use gpuautoscaler.Kube.{Pod, running, gpu_resource}
use gpuautoscaler.Metrics.Model.{
  current_gpu_util, avg_gpu_util, fb_used, fb_total, power_usage, gpu_temp, avg_memory, Sample,
  vector, another, WasteMetrics,
}
use gpuautoscaler.Metrics.Collector.{Prometheus, ok_or_none}
use gpuautoscaler.Metrics.Waste.{get_waste_metrics}
use gpuautoscaler.Metrics.Unmeasured.{by_utilization, get_waste_metrics-unmeasured}

abbrev gpu_of : String → ℤ → Sample fixed
gpu_of index util = record {
  metric = some (entry "kubernetes_node" "a" ∷ entry "gpu" index ∷ []);
  value = fixed.of_int util;
}

abbrev answers : Prometheus fixed
answers (avg_gpu_util n) = ok (vector (gpu_of "0" (pos 90) ∷ gpu_of "1" (pos 10) ∷ []))
answers current_gpu_util = ok another
answers (fb_used node gpu) = ok another
answers (fb_total node gpu) = ok another
answers (power_usage node gpu) = ok another
answers (gpu_temp node gpu) = ok another
answers (avg_memory node gpu n) = err (message "parse error")

abbrev trainer : Pod
trainer = record {
  name = "train";
  namespace = "ml";
  node_name = "a";
  phase = running;
  labels = none;
  annotations = none;
  containers = record { requests = some (entry gpu_resource (pos 1) ∷ []); limits = none } ∷ [];
  priority = none;
  created = pos 0;
  start_time = some (pos 1);
  node_selector = none;
  tolerations = [];
}

abbrev pods_on : String → Result (List Pod)
pods_on node = ok (trainer ∷ [])

abbrev scan : String → ℤ
scan s = pos 0

-- The GPU at 90% is said to suit time slicing.
recommended :
    map
      (λ (w : WasteMetrics fixed). w.recommendation)
      (ok_or_none (get_waste_metrics fixed scan answers pods_on (pos 10)))
    ≡ "Memory-light workload - consider time-slicing"
      ∷ "Consider sharing this GPU via MIG or MPS - very low utilization" ∷ []
unfolding get_waste_metrics
recommended = refl

get_waste_metrics-unmeasured_example :
    All
      (λ (w : WasteMetrics fixed).
        (w.avg_memory_util ≡ fixed.of_int (pos 0))
        × (w.recommendation ≡ by_utilization fixed w.avg_utilization))
      (ok_or_none (get_waste_metrics fixed scan answers pods_on (pos 10)))
get_waste_metrics-unmeasured_example =
    get_waste_metrics-unmeasured fixed fixed-IsIeee scan answers pods_on (message "parse error")
      (λ node gpu n. refl) (pos 10)
