-- ===== src/Gpu/Unseen.antt =====
-- The pods that the GPU controller never examines, because the collector gives their metrics to another.
use gpuautoscaler.Prelude.{
  ◌≡◌, refl, sym, ◌∙◌, pos, false, Bool-cases, inl, inr, String, str_eq, eq_iff, List, [],
  keep-none, All, All-mono, if◌then◌else◌,
}
use gpuautoscaler.Prelude.Float.{Float64}
use gpuautoscaler.Prelude.Results.{Result, ok, err, wrap_error}
use gpuautoscaler.Kube.{Pod, is_running}
use gpuautoscaler.Metrics.Model.{GpuMetrics, WasteMetrics}
use gpuautoscaler.Metrics.Collector.{get_pod_for_gpu, get_gpu_metrics, ok_or_none}
use gpuautoscaler.Metrics.Waste.{get_waste_metrics}
use gpuautoscaler.Metrics.Owners.{IsOwner, get_gpu_metrics-IsOwner, get_waste_metrics-IsOwner}
use gpuautoscaler.Gpu.Controller.{
  Outside, has_gpu_request, is_metric_of, kept_metrics, analyze_gpu_utilization, is_waste_of,
  is_opportunity, kept_wastes, is_examined, check_optimization_opportunities, Reconciled,
  after_analysis, found, reconcile,
}

same_names-false :
    (name name' namespace namespace' : String)
    → (name ≡ name' → namespace ≡ namespace' → ⊥)
    → (if str_eq name name' then str_eq namespace namespace' else false) ≡ false
same_names-false name name' namespace namespace' h = elim (Bool-cases (str_eq name name')) [
  | inr other ↦ rw other refl
  | inl same ↦ elim (Bool-cases (str_eq namespace namespace')) [
    | inr other ↦ rw (same, other) refl
    | inl both ↦ absurd (h ((eq_iff name name').0 same) ((eq_iff namespace namespace').0 both))
  ]
]

-- No node gives this pod as the one that uses its GPUs.
abbrev pub IsUnseen : (String → Result (List Pod)) → Pod → Type 0
IsUnseen pods_on pod =
    (node : String) (p : Pod)
    → get_pod_for_gpu pods_on node ≡ ok p
    → p.name ≡ pod.name
    → p.namespace ≡ pod.namespace
    → ⊥

other_owner :
    (pods_on : String → Result (List Pod)) (pod : Pod) (node name namespace : String)
    → IsUnseen pods_on pod
    → IsOwner pods_on node name namespace
    → (if str_eq name pod.name then str_eq namespace pod.namespace else false) ≡ false
other_owner pods_on pod node name namespace unseen owner =
    same_names-false name pod.name namespace pod.namespace
      λ n s. unseen node owner.pod owner.found (sym owner.is_named ∙ n) (sym owner.is_in ∙ s)

module _ (fl : Float64) where
  kept_metrics-none :
      (pod : Pod) (text : String) (r : Result (List (GpuMetrics fl)))
      → All (λ m. is_metric_of fl pod m ≡ false) (ok_or_none r)
      → ok_or_none (kept_metrics fl pod (wrap_error text r)) ≡ []
  kept_metrics-none pod text (err e) h = refl
  kept_metrics-none pod text (ok ms) h = keep-none (is_metric_of fl pod) ms h

  not_opportunity :
      (pod : Pod) (w : WasteMetrics fl)
      → is_waste_of fl pod w ≡ false
      → is_opportunity fl pod w ≡ false
  not_opportunity pod w h = rw h refl

  kept_wastes-none :
      (pod : Pod) (text : String) (r : Result (List (WasteMetrics fl)))
      → All (λ w. is_waste_of fl pod w ≡ false) (ok_or_none r)
      → ok_or_none (kept_wastes fl pod (wrap_error text r)) ≡ []
  kept_wastes-none pod text (err e) h = refl
  kept_wastes-none pod text (ok ws) h =
      keep-none (is_opportunity fl pod) ws (All-mono ws (not_opportunity pod) h)

  analyze-none :
      (o : Outside fl) (pod : Pod)
      → IsUnseen o.pods_on pod
      → ok_or_none (analyze_gpu_utilization fl o pod) ≡ []
  unfolding analyze_gpu_utilization
  analyze-none o pod unseen = elim (Bool-cases (is_running pod.phase)) [
    | inr idle ↦ rw idle refl
    | inl runs ↦
        let r = get_gpu_metrics fl o.scan o.prom o.pods_on o.now in
        rw runs (
          kept_metrics-none pod "failed to get GPU metrics" r (
            All-mono (ok_or_none r) (λ m. other_owner o.pods_on pod _ _ _ unseen)
              (get_gpu_metrics-IsOwner o.pods_on fl o.scan o.prom o.now)))
  ]

  check-none :
      (o : Outside fl) (pod : Pod)
      → IsUnseen o.pods_on pod
      → ok_or_none (check_optimization_opportunities fl o pod) ≡ []
  unfolding check_optimization_opportunities
  check-none o pod unseen = elim (Bool-cases (is_examined o.now pod)) [
    | inr passed ↦ rw passed refl
    | inl examined ↦
        let r = get_waste_metrics fl o.scan o.prom o.pods_on (pos 10) in
        rw examined (
          kept_wastes-none pod "failed to get waste metrics" r (
            All-mono (ok_or_none r) (λ w. other_owner o.pods_on pod _ _ _ unseen)
              (get_waste_metrics-IsOwner o.pods_on fl o.scan o.prom (pos 10))))
  ]

  abbrev HasNothing : Reconciled fl → Type 0
  HasNothing r = (r.metrics ≡ []) × (r.recommended ≡ [])

  after_analysis-none :
      (checked : Result (List (WasteMetrics fl))) (analysed : Result (List (GpuMetrics fl)))
      → ok_or_none checked ≡ []
      → ok_or_none analysed ≡ []
      → HasNothing (after_analysis fl checked analysed)
  after_analysis-none checked (err e) c a = (refl, refl)
  after_analysis-none (err e) (ok ms) c a = (a, refl)
  after_analysis-none (ok ws) (ok ms) c a = (a, c)

  -- For a pod that the collector takes on no node for the one that uses its GPUs, such as every pod with
  -- GPUs but the first of its node, a reconciliation logs no metrics and recommends nothing, whatever
  -- Prometheus answers.
  pub reconcile-unseen :
      (o : Outside fl) (pod : Pod)
      → IsUnseen o.pods_on pod
      → ((reconcile fl o (found pod)).metrics ≡ [])
        × ((reconcile fl o (found pod)).recommended ≡ [])
  unfolding reconcile
  reconcile-unseen o pod unseen = elim (Bool-cases (has_gpu_request pod)) [
    | inr without ↦ rw without (refl, refl)
    | inl gpus ↦ rw gpus (
        after_analysis-none (check_optimization_opportunities fl o pod)
          (analyze_gpu_utilization fl o pod) (check-none o pod unseen) (analyze-none o pod unseen))
  ]
