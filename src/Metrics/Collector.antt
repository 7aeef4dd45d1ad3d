-- ===== src/Metrics/Collector.antt =====
-- `GetGPUMetrics` and its helpers. The answers of Prometheus, the pods of a node and
-- what `fmt.Sscanf` reads are arguments; an error within a loop is logged.
use gpuautoscaler.Prelude.{
  ℤ, pos, Option, none, some, String, List, [], ◌∷◌, GoMap, map_get, lookup, if◌then◌else◌,
}
use gpuautoscaler.Prelude.Float.{Float64}
use gpuautoscaler.Prelude.Results.{Result, ok, err, message, wrap_error}
use gpuautoscaler.Prelude.Time.{Time}
use gpuautoscaler.Kube.{Pod, text_at}
use gpuautoscaler.Metrics.Model.{
  Query, current_gpu_util, fb_used, fb_total, power_usage, gpu_temp, Sample, Value, vector, another,
  GpuMetrics, has_gpu_allocation,
}

unfoldable pub first_gpu_pod : List Pod → Option Pod
unfolding has_gpu_allocation
first_gpu_pod [] = none
first_gpu_pod (p ∷ ps) =
    let rest = first_gpu_pod ps in if has_gpu_allocation p.containers then some p else rest

abbrev pub found_pod : Option Pod → Result Pod
found_pod none = err (message "no pod found using GPU on node")
found_pod (some p) = ok p

abbrev pub pod_of_list : Result (List Pod) → Result Pod
pod_of_list (err e) = err e
pod_of_list (ok pods) = found_pod (first_gpu_pod pods)

-- The index of the GPU is not used but in the text of an error.
unfoldable pub get_pod_for_gpu : (String → Result (List Pod)) → String → Result Pod
unfolding first_gpu_pod
get_pod_for_gpu pods_on node = pod_of_list (wrap_error "failed to list pods on node" (pods_on node))

abbrev scanned : (String → ℤ) → Option String → ℤ
scanned scan none = pos 0
scanned scan (some gpu) = scan gpu

abbrev pub parse_gpu_index : (String → ℤ) → GoMap String → ℤ
parse_gpu_index scan labels = scanned scan (map_get "gpu" labels)

-- The list of an answer, none where there is an error.
abbrev pub ok_or_none {ℓ} : {A : Type ℓ} → Result (List A) → List A
ok_or_none (err e) = []
ok_or_none (ok xs) = xs

-- `if err != nil { continue }` behind `getPodForGPU`.
abbrev pub cons_if {ℓ} : {A : Type ℓ} → (Pod → A) → Result Pod → List A → List A
cons_if f (err e) rest = rest
cons_if f (ok p) rest = f p ∷ rest

module _ (fl : Float64) where
  abbrev pub Prometheus : Type 0
  Prometheus = Query → Result (Value fl)

  abbrev head_value : List (Sample fl) → Option fl.F
  head_value [] = none
  head_value (s ∷ ss) = some s.value

  -- `if err == nil && result.Type() == model.ValVector` and the vector has an element: its value.
  abbrev pub first_value : Result (Value fl) → Option fl.F
  first_value (err e) = none
  first_value (ok another) = none
  first_value (ok (vector ss)) = head_value ss

  abbrev pub with_used : Option fl.F → GpuMetrics fl → GpuMetrics fl
  with_used none m = m
  with_used (some x) m = record m { gpu_memory_used = x }

  abbrev pub with_total : Option fl.F → GpuMetrics fl → GpuMetrics fl
  with_total none m = m
  with_total (some x) m = record m {
    gpu_memory_total = x;
    gpu_memory_util =
        (if fl.lt (fl.of_int (pos 0)) x
          then fl.mul (fl.div m.gpu_memory_used x) (fl.of_int (pos 100))
          else m.gpu_memory_util);
  }

  abbrev pub with_power : Option fl.F → GpuMetrics fl → GpuMetrics fl
  with_power none m = m
  with_power (some x) m = record m { gpu_power_usage = x }

  abbrev pub with_temperature : Option fl.F → GpuMetrics fl → GpuMetrics fl
  with_temperature none m = m
  with_temperature (some x) m = record m { gpu_temperature = x }

  -- It never returns an error.
  unfoldable pub enrich_gpu_metrics : Prometheus → GpuMetrics fl → GpuMetrics fl
  enrich_gpu_metrics prom m =
      with_temperature (first_value (prom (gpu_temp m.node_name m.gpu_index))) (
        with_power (first_value (prom (power_usage m.node_name m.gpu_index))) (
          with_total (first_value (prom (fb_total m.node_name m.gpu_index)))
            (with_used (first_value (prom (fb_used m.node_name m.gpu_index))) m)))

  abbrev pub metric_of : (String → ℤ) → Time → Sample fl → Pod → GpuMetrics fl
  metric_of scan now s p = record {
    pod_name = p.name;
    pod_namespace = p.namespace;
    node_name = text_at "kubernetes_node" s.metric;
    gpu_index = parse_gpu_index scan s.metric;
    gpu_utilization = s.value;
    gpu_memory_used = fl.of_int (pos 0);
    gpu_memory_total = fl.of_int (pos 0);
    gpu_memory_util = fl.of_int (pos 0);
    gpu_power_usage = fl.of_int (pos 0);
    gpu_temperature = fl.of_int (pos 0);
    timestamp = now;
  }

  unfoldable pub gpu_metrics_of :
      (String → ℤ)
      → Prometheus
      → (String → Result (List Pod))
      → Time
      → List (Sample fl)
      → List (GpuMetrics fl)
  unfolding get_pod_for_gpu enrich_gpu_metrics lookup
  gpu_metrics_of scan prom pods_on now [] = []
  gpu_metrics_of scan prom pods_on now (s ∷ ss) =
      cons_if (λ p. enrich_gpu_metrics prom (metric_of scan now s p))
        (get_pod_for_gpu pods_on (text_at "kubernetes_node" s.metric))
        (gpu_metrics_of scan prom pods_on now ss)

  abbrev pub samples_of : Value fl → List (Sample fl)
  samples_of another = []
  samples_of (vector ss) = ss

  abbrev pub answered {ℓ} :
      {A : Type ℓ} → (List (Sample fl) → List A) → Result (Value fl) → Result (List A)
  answered f (err e) = err e
  answered f (ok v) = ok (f (samples_of v))

  unfoldable pub get_gpu_metrics :
      (String → ℤ)
      → Prometheus
      → (String → Result (List Pod))
      → Time
      → Result (List (GpuMetrics fl))
  unfolding gpu_metrics_of
  get_gpu_metrics scan prom pods_on now =
      answered (gpu_metrics_of scan prom pods_on now)
        (wrap_error "failed to query Prometheus" (prom current_gpu_util))
