-- ===== src/Metrics/Unmeasured.antt =====
-- What is recommended when the query for the memory fails.
use gpuautoscaler.Prelude.{
  ◌≡◌, refl, ℤ, pos, Bool-cases, inl, inr, String, List, [], ◌∷◌, All, if◌then◌else◌, arith,
}
use gpuautoscaler.Prelude.Float.{Float64, IsIeee}
use gpuautoscaler.Prelude.Results.{Result, Error, ok, err, wrap_error}
use gpuautoscaler.Kube.{Pod, text_at}
use gpuautoscaler.Metrics.Model.{avg_memory, avg_gpu_util, Sample, Value, WasteMetrics}
use gpuautoscaler.Metrics.Collector.{
  get_pod_for_gpu, Prometheus, cons_if, samples_of, answered, ok_or_none,
}
use gpuautoscaler.Metrics.Waste.{
  generate_recommendation, waste_of, waste_metrics_of, get_waste_metrics,
}

module _ (fl : Float64) where
  -- What is recommended by the utilization alone.
  abbrev pub by_utilization : fl.F → String
  by_utilization util =
      if fl.lt util (fl.of_int (pos 30))
      then "Consider sharing this GPU via MIG or MPS - very low utilization"
      else if fl.lt util (fl.of_int (pos 50))
      then "This workload could share a GPU via MIG (hardware partitioning)"
      else if fl.le (fl.of_int (pos 50)) util
      then "Memory-light workload - consider time-slicing"
      else "Utilization is acceptable - no optimization needed"

  generate_recommendation-zero :
      IsIeee fl
      → (util : fl.F) → generate_recommendation fl util (fl.of_int (pos 0)) ≡ by_utilization util
  unfolding generate_recommendation
  generate_recommendation-zero ieee util =
      let below_30 = ieee.lt-of_int (pos 0) (pos 30) (omega arith) (omega arith) in
      let below_40 = ieee.lt-of_int (pos 0) (pos 40) (omega arith) (omega arith) in
      rw (below_30, below_40)
        (elim (Bool-cases (fl.lt util (fl.of_int (pos 30)))) [
          | inl low ↦ rw low refl
          | inr more ↦ elim (Bool-cases (fl.lt util (fl.of_int (pos 50)))) [
            | inl half ↦ rw (more, half) refl
            | inr used ↦ elim (Bool-cases (fl.le (fl.of_int (pos 50)) util)) [
              | inl high ↦ rw (more, used, high) refl
              | inr nan ↦ rw (more, used, nan) refl
            ]
          ]
        ])

  module _ (ieee : IsIeee fl) (scan : String → ℤ) (prom : Prometheus fl)
      (pods_on : String → Result (List Pod)) (e : Error)
      (fails : (node gpu : String) (lookback : ℤ)
        → prom (avg_memory node gpu lookback) ≡ err e) where
    abbrev IsUnmeasured : WasteMetrics fl → Type 0
    IsUnmeasured w =
        (w.avg_memory_util ≡ fl.of_int (pos 0))
        × (w.recommendation ≡ by_utilization w.avg_utilization)

    waste_of-IsUnmeasured :
        (lookback : ℤ) (s : Sample fl) (p : Pod) → IsUnmeasured (waste_of fl scan prom lookback s p)
    waste_of-IsUnmeasured lookback s p =
        rw (fails (text_at "kubernetes_node" s.metric) (text_at "gpu" s.metric) lookback)
          (refl, generate_recommendation-zero ieee s.value)

    cons_if-IsUnmeasured :
        (lookback : ℤ) (s : Sample fl) (answer : Result Pod) (rest : List (WasteMetrics fl))
        → All IsUnmeasured rest
        → All IsUnmeasured (cons_if (waste_of fl scan prom lookback s) answer rest)
    cons_if-IsUnmeasured lookback s (err f) rest h = h
    cons_if-IsUnmeasured lookback s (ok p) rest h = (waste_of-IsUnmeasured lookback s p, h)

    waste_metrics_of-IsUnmeasured :
        (lookback : ℤ) (ss : List (Sample fl))
        → All IsUnmeasured (waste_metrics_of fl scan prom pods_on lookback ss)
    unfolding waste_metrics_of
    waste_metrics_of-IsUnmeasured lookback [] = tt
    waste_metrics_of-IsUnmeasured lookback (s ∷ ss) =
        cons_if-IsUnmeasured lookback s
          (get_pod_for_gpu pods_on (text_at "kubernetes_node" s.metric))
          (waste_metrics_of fl scan prom pods_on lookback ss)
          (waste_metrics_of-IsUnmeasured lookback ss)

    answered-IsUnmeasured :
        (lookback : ℤ) (v : Result (Value fl))
        → All IsUnmeasured
            (ok_or_none (answered fl (waste_metrics_of fl scan prom pods_on lookback) v))
    answered-IsUnmeasured lookback (err f) = tt
    answered-IsUnmeasured lookback (ok v) = waste_metrics_of-IsUnmeasured lookback (samples_of fl v)

    -- If the query for the memory always fails, every waste has a memory utilization of 0 and a
    -- recommendation by the utilization of the GPU alone: sharing below 30, MIG below 50, time slicing
    -- from 50 on, and that nothing is to be done only for a value that does not compare with 50.
    pub get_waste_metrics-unmeasured :
        (lookback : ℤ)
        → All
            (λ (w : WasteMetrics fl).
              (w.avg_memory_util ≡ fl.of_int (pos 0))
              × (w.recommendation ≡ by_utilization w.avg_utilization))
            (ok_or_none (get_waste_metrics fl scan prom pods_on lookback))
    unfolding get_waste_metrics
    get_waste_metrics-unmeasured lookback =
        answered-IsUnmeasured lookback
          (wrap_error "failed to query Prometheus" (prom (avg_gpu_util lookback)))
