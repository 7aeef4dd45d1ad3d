-- ===== src/Metrics/Waste.antt =====
-- `GetWasteMetrics` and its helpers.
use gpuautoscaler.Prelude.{
  ℤ, pos, add64, false, Option, none, some, String, List, [], ◌∷◌, GoMap, map_get, lookup,
  if◌then◌else◌,
}
use gpuautoscaler.Prelude.Float.{Float64}
use gpuautoscaler.Prelude.Results.{Result, wrap_error}
use gpuautoscaler.Kube.{Pod, Container, gpu_resource, text_at}
use gpuautoscaler.Metrics.Model.{avg_gpu_util, avg_memory, Sample, WasteMetrics}
use gpuautoscaler.Metrics.Collector.{
  get_pod_for_gpu, parse_gpu_index, Prometheus, first_value, cons_if, answered,
}

abbrev plus : ℤ → Option ℤ → ℤ
plus count none = count
plus count (some n) = add64 count n

-- `getGPUCount`: of the requests alone.
unfoldable pub allocated_gpus : ℤ → List Container → ℤ
unfolding add64 lookup
allocated_gpus count [] = count
allocated_gpus count (c ∷ cs) = allocated_gpus (plus count (map_get gpu_resource c.requests)) cs

module _ (fl : Float64) where
  unfoldable pub calculate_waste_score : fl.F → fl.F → fl.F
  calculate_waste_score gpu_util mem_util =
      fl.add (fl.mul (fl.sub (fl.of_int (pos 100)) gpu_util) (fl.lit 6 1))
        (fl.mul (fl.sub (fl.of_int (pos 100)) mem_util) (fl.lit 4 1))

  unfoldable pub generate_recommendation : fl.F → fl.F → String
  generate_recommendation gpu_util mem_util =
      let gpu_below = λ (n : ℤ). fl.lt gpu_util (fl.of_int n) in
      let mem_below = λ (n : ℤ). fl.lt mem_util (fl.of_int n) in
      if (if gpu_below (pos 30) then mem_below (pos 30) else false)
      then "Consider sharing this GPU via MIG or MPS - very low utilization"
      else if (if gpu_below (pos 50) then mem_below (pos 40) else false)
      then "This workload could share a GPU via MIG (hardware partitioning)"
      else if (if gpu_below (pos 50) then fl.le (fl.of_int (pos 40)) mem_util else false)
      then "Consider MPS (multi-process service) for this workload"
      else if (if fl.le (fl.of_int (pos 50)) gpu_util then mem_below (pos 40) else false)
      then "Memory-light workload - consider time-slicing"
      else "Utilization is acceptable - no optimization needed"

  abbrev pub value_or_zero : Option fl.F → fl.F
  value_or_zero none = fl.of_int (pos 0)
  value_or_zero (some x) = x

  -- 0 on an error, for which the caller too takes 0.
  abbrev pub get_avg_memory_util : Prometheus fl → GoMap String → ℤ → fl.F
  get_avg_memory_util prom labels lookback = value_or_zero (
      first_value fl
        (prom (avg_memory (text_at "kubernetes_node" labels) (text_at "gpu" labels) lookback)))

  abbrev pub waste_of : (String → ℤ) → Prometheus fl → ℤ → Sample fl → Pod → WasteMetrics fl
  waste_of scan prom lookback s p =
      let mem = get_avg_memory_util prom s.metric lookback in
      record {
        pod_name = p.name;
        pod_namespace = p.namespace;
        node_name = text_at "kubernetes_node" s.metric;
        gpu_index = parse_gpu_index scan s.metric;
        allocated_gpus = allocated_gpus (pos 0) p.containers;
        avg_utilization = s.value;
        avg_memory_util = mem;
        waste_score = calculate_waste_score s.value mem;
        recommendation = generate_recommendation s.value mem;
        estimated_monthly_cost =
            fl.mul
              (fl.mul (fl.mul (fl.of_int (allocated_gpus (pos 0) p.containers)) (fl.of_int (pos 2)))
                (fl.of_int (pos 24)))
              (fl.of_int (pos 30));
      }

  unfoldable pub waste_metrics_of :
      (String → ℤ)
      → Prometheus fl
      → (String → Result (List Pod))
      → ℤ
      → List (Sample fl)
      → List (WasteMetrics fl)
  unfolding get_pod_for_gpu calculate_waste_score generate_recommendation allocated_gpus lookup
  waste_metrics_of scan prom pods_on lookback [] = []
  waste_metrics_of scan prom pods_on lookback (s ∷ ss) =
      cons_if (waste_of scan prom lookback s)
        (get_pod_for_gpu pods_on (text_at "kubernetes_node" s.metric))
        (waste_metrics_of scan prom pods_on lookback ss)

  unfoldable pub get_waste_metrics :
      (String → ℤ)
      → Prometheus fl
      → (String → Result (List Pod))
      → ℤ
      → Result (List (WasteMetrics fl))
  unfolding waste_metrics_of
  get_waste_metrics scan prom pods_on lookback =
      answered fl (waste_metrics_of scan prom pods_on lookback)
        (wrap_error "failed to query Prometheus" (prom (avg_gpu_util lookback)))
