-- ===== src/Metrics/Owners.antt =====
-- To which pod the collector gives the metrics of a GPU.
use gpuautoscaler.Prelude.{
  ◌≡◌, refl, sym, ap, ◌∙◌, ℤ, Option, none, some, String, List, [], ◌∷◌, All, All-mono,
}
use gpuautoscaler.Prelude.Float.{Float64}
use gpuautoscaler.Prelude.Results.{Result, ok, err, wrap_error}
use gpuautoscaler.Prelude.Time.{Time}
use gpuautoscaler.Kube.{Pod, text_at}
use gpuautoscaler.Metrics.Model.{
  Sample, Value, GpuMetrics, WasteMetrics, current_gpu_util, avg_gpu_util,
}
use gpuautoscaler.Metrics.Collector.{
  get_pod_for_gpu, with_used, with_total, with_power, with_temperature, Prometheus,
  enrich_gpu_metrics, metric_of, cons_if, gpu_metrics_of, samples_of, answered, get_gpu_metrics,
  ok_or_none,
}
use gpuautoscaler.Metrics.Waste.{waste_of, waste_metrics_of, get_waste_metrics}

abbrev name_of : Result Pod → String
name_of (err e) = ""
name_of (ok p) = p.name

abbrev namespace_of : Result Pod → String
namespace_of (err e) = ""
namespace_of (ok p) = p.namespace

module _ (pods_on : String → Result (List Pod)) where
  -- The names are those of the pod that is found for the node.
  pub record IsOwner (node name namespace : String) : Type 0 where
    pub pod : Pod
    pub found : get_pod_for_gpu pods_on node ≡ ok pod
    pub is_named : name ≡ pod.name
    pub is_in : namespace ≡ pod.namespace

  owner_unique :
      (node node' name name' namespace namespace' : String)
      → IsOwner node name namespace
      → IsOwner node' name' namespace'
      → node ≡ node'
      → (name ≡ name') × (namespace ≡ namespace')
  owner_unique node node' name name' namespace namespace' a b same =
      let answer : ok a.pod ≡ ok b.pod =
        sym a.found ∙ ap (get_pod_for_gpu pods_on) same ∙ b.found in
      (
        a.is_named ∙ ap name_of answer ∙ sym b.is_named,
        a.is_in ∙ ap namespace_of answer ∙ sym b.is_in,
      )

  cons_if-All {ℓ κ} :
      {A : Type ℓ} (P : A → Type κ) (f : Pod → A) (answer : Result Pod) (rest : List A)
      → ((p : Pod) → answer ≡ ok p → P (f p))
      → All P rest
      → All P (cons_if f answer rest)
  cons_if-All P f (err e) rest g h = h
  cons_if-All P f (ok p) rest g h = (g p refl, h)

  module _ (fl : Float64) (scan : String → ℤ) (prom : Prometheus fl) where
    -- What `enrichGPUMetrics` leaves as it is.
    record SamePlace (m n : GpuMetrics fl) : Type 0 where
      node : n.node_name ≡ m.node_name
      pod : n.pod_name ≡ m.pod_name
      namespace : n.pod_namespace ≡ m.pod_namespace

    SamePlace-trans : (k m n : GpuMetrics fl) → SamePlace k m → SamePlace m n → SamePlace k n
    SamePlace-trans k m n a b = record {
      node = b.node ∙ a.node;
      pod = b.pod ∙ a.pod;
      namespace = b.namespace ∙ a.namespace;
    }

    used-SamePlace : (x : Option fl.F) (m : GpuMetrics fl) → SamePlace m (with_used fl x m)
    used-SamePlace none m = record { node = refl; pod = refl; namespace = refl }
    used-SamePlace (some x) m = record { node = refl; pod = refl; namespace = refl }

    total-SamePlace : (x : Option fl.F) (m : GpuMetrics fl) → SamePlace m (with_total fl x m)
    total-SamePlace none m = record { node = refl; pod = refl; namespace = refl }
    total-SamePlace (some x) m = record { node = refl; pod = refl; namespace = refl }

    power-SamePlace : (x : Option fl.F) (m : GpuMetrics fl) → SamePlace m (with_power fl x m)
    power-SamePlace none m = record { node = refl; pod = refl; namespace = refl }
    power-SamePlace (some x) m = record { node = refl; pod = refl; namespace = refl }

    temperature-SamePlace :
        (x : Option fl.F) (m : GpuMetrics fl) → SamePlace m (with_temperature fl x m)
    temperature-SamePlace none m = record { node = refl; pod = refl; namespace = refl }
    temperature-SamePlace (some x) m = record { node = refl; pod = refl; namespace = refl }

    enrich-SamePlace : (m : GpuMetrics fl) → SamePlace m (enrich_gpu_metrics fl prom m)
    unfolding enrich_gpu_metrics
    enrich-SamePlace m =
        SamePlace-trans m _ _
          (SamePlace-trans m _ _ (SamePlace-trans m _ _ (used-SamePlace _ m) (total-SamePlace _ _))
            (power-SamePlace _ _))
          (temperature-SamePlace _ _)

    abbrev IsMetric : GpuMetrics fl → Type 0
    IsMetric m = IsOwner m.node_name m.pod_name m.pod_namespace

    abbrev IsWaste : WasteMetrics fl → Type 0
    IsWaste w = IsOwner w.node_name w.pod_name w.pod_namespace

    metric-IsOwner :
        (now : Time) (s : Sample fl) (p : Pod)
        → get_pod_for_gpu pods_on (text_at "kubernetes_node" s.metric) ≡ ok p
        → IsMetric (enrich_gpu_metrics fl prom (metric_of fl scan now s p))
    metric-IsOwner now s p h =
        let same = enrich-SamePlace (metric_of fl scan now s p) in
        record {
          pod = p;
          found = ap (get_pod_for_gpu pods_on) same.node ∙ h;
          is_named = same.pod;
          is_in = same.namespace;
        }

    gpu_metrics_of-IsOwner :
        (now : Time) (ss : List (Sample fl))
        → All IsMetric (gpu_metrics_of fl scan prom pods_on now ss)
    unfolding gpu_metrics_of
    gpu_metrics_of-IsOwner now [] = tt
    gpu_metrics_of-IsOwner now (s ∷ ss) =
        cons_if-All IsMetric (λ p. enrich_gpu_metrics fl prom (metric_of fl scan now s p))
          (get_pod_for_gpu pods_on (text_at "kubernetes_node" s.metric))
          (gpu_metrics_of fl scan prom pods_on now ss) (λ p h. metric-IsOwner now s p h)
          (gpu_metrics_of-IsOwner now ss)

    waste_metrics_of-IsOwner :
        (lookback : ℤ) (ss : List (Sample fl))
        → All IsWaste (waste_metrics_of fl scan prom pods_on lookback ss)
    unfolding waste_metrics_of
    waste_metrics_of-IsOwner lookback [] = tt
    waste_metrics_of-IsOwner lookback (s ∷ ss) =
        cons_if-All IsWaste (waste_of fl scan prom lookback s)
          (get_pod_for_gpu pods_on (text_at "kubernetes_node" s.metric))
          (waste_metrics_of fl scan prom pods_on lookback ss)
          (λ p h. record { pod = p; found = h; is_named = refl; is_in = refl })
          (waste_metrics_of-IsOwner lookback ss)

    answered-All :
        {A : Type 0} (P : A → Type 0) (f : List (Sample fl) → List A) (v : Result (Value fl))
        → ((ss : List (Sample fl)) → All P (f ss))
        → All P (ok_or_none (answered fl f v))
    answered-All P f (err e) h = tt
    answered-All P f (ok v) h = h (samples_of fl v)

    pub get_gpu_metrics-IsOwner :
        (now : Time)
        → All
            (λ (m : GpuMetrics fl). IsOwner m.node_name m.pod_name m.pod_namespace)
            (ok_or_none (get_gpu_metrics fl scan prom pods_on now))
    unfolding get_gpu_metrics
    get_gpu_metrics-IsOwner now =
        answered-All IsMetric (gpu_metrics_of fl scan prom pods_on now)
          (wrap_error "failed to query Prometheus" (prom current_gpu_util))
          (gpu_metrics_of-IsOwner now)

    pub get_waste_metrics-IsOwner :
        (lookback : ℤ)
        → All
            (λ (w : WasteMetrics fl). IsOwner w.node_name w.pod_name w.pod_namespace)
            (ok_or_none (get_waste_metrics fl scan prom pods_on lookback))
    unfolding get_waste_metrics
    get_waste_metrics-IsOwner lookback =
        answered-All IsWaste (waste_metrics_of fl scan prom pods_on lookback)
          (wrap_error "failed to query Prometheus" (prom (avg_gpu_util lookback)))
          (waste_metrics_of-IsOwner lookback)

    -- All GPUs of a node are taken for GPUs of one pod: any two metrics, and any two wastes, that name
    -- the same node name the same pod, whatever the indices of their GPUs.
    pub get_gpu_metrics-one_pod :
        (now : Time) (lookback : ℤ)
        → let metrics = ok_or_none (get_gpu_metrics fl scan prom pods_on now) in
          let wastes = ok_or_none (get_waste_metrics fl scan prom pods_on lookback) in
          All
            (λ (m : GpuMetrics fl).
              All
                (λ (n : GpuMetrics fl).
                  m.node_name ≡ n.node_name
                  → (m.pod_name ≡ n.pod_name) × (m.pod_namespace ≡ n.pod_namespace))
                metrics)
            metrics
          × All
              (λ (v : WasteMetrics fl).
                All
                  (λ (w : WasteMetrics fl).
                    v.node_name ≡ w.node_name
                    → (v.pod_name ≡ w.pod_name) × (v.pod_namespace ≡ w.pod_namespace))
                  wastes)
              wastes
    get_gpu_metrics-one_pod now lookback =
        let metrics = ok_or_none (get_gpu_metrics fl scan prom pods_on now) in
        let wastes = ok_or_none (get_waste_metrics fl scan prom pods_on lookback) in
        (
          All-mono metrics
              (λ m a.
                All-mono metrics (λ n b. owner_unique _ _ _ _ _ _ a b)
                  (get_gpu_metrics-IsOwner now))
              (get_gpu_metrics-IsOwner now),
          All-mono wastes
              (λ v a.
                All-mono wastes (λ w b. owner_unique _ _ _ _ _ _ a b)
                  (get_waste_metrics-IsOwner lookback))
              (get_waste_metrics-IsOwner lookback),
        )
