-- ===== src/Gpu/Controller.antt =====
-- `Reconcile` of the GPU controller and what it calls. What it logs of metrics and recommends is a part of
-- the result; an event is only logged.
use gpuautoscaler.Prelude.{
  ◌*◌, ℤ, pos, add64, eqb_ℤ, ltb_ℤ, Bool, true, false, Option, none, some, String, str_eq, List, [],
  ◌∷◌, keep, map_get, lookup, if◌then◌else◌,
}
use gpuautoscaler.Prelude.Float.{Float64}
use gpuautoscaler.Prelude.Results.{Result, Error, ok, err, wrap_error}
use gpuautoscaler.Prelude.Time.{Time, Duration, time_sub, second, minute}
use gpuautoscaler.Kube.{Pod, Container, is_running, gpu_resource, text_at}
use gpuautoscaler.Metrics.Model.{GpuMetrics, WasteMetrics, has_gpu_allocation}
use gpuautoscaler.Metrics.Collector.{Prometheus, get_gpu_metrics}
use gpuautoscaler.Metrics.Waste.{get_waste_metrics}

-- `ReconcileInterval`
abbrev pub reconcile_interval : Duration
reconcile_interval = pos (30 * second)

-- `hasGPURequest` tests the same as `hasGPUAllocation` of the collector.
abbrev pub has_gpu_request : Pod → Bool
has_gpu_request pod = has_gpu_allocation pod.containers

abbrev plus : ℤ → Option ℤ → ℤ
plus count none = count
plus count (some n) = add64 count n

unfoldable pub requested_gpus : ℤ → List Container → ℤ
unfolding add64 lookup
requested_gpus count [] = count
requested_gpus count (c ∷ cs) = requested_gpus (plus count (map_get gpu_resource c.requests)) cs

unfoldable pub limited_gpus : ℤ → List Container → ℤ
unfolding add64 lookup
limited_gpus count [] = count
limited_gpus count (c ∷ cs) = limited_gpus (plus count (map_get gpu_resource c.limits)) cs

-- The limits count only if the requests come to 0.
unfoldable pub get_gpu_count : Pod → ℤ
unfolding requested_gpus limited_gpus
get_gpu_count pod =
    let count = requested_gpus (pos 0) pod.containers in
    if eqb_ℤ count (pos 0) then limited_gpus count pod.containers else count

-- What `Get` answers.
pub data Fetched : Type 0 where
  found : Pod → Fetched
  not_found : Fetched
  failed : Error → Fetched

-- `pod.Status.StartTime` is at least five minutes ago.
abbrev pub runs_long_enough : Time → Option Time → Bool
runs_long_enough now none = false
runs_long_enough now (some start) =
    if ltb_ℤ (time_sub now start) (pos (5 * minute)) then false else true

abbrev pub is_examined : Time → Pod → Bool
is_examined now pod =
    if str_eq (text_at "gpu-autoscaler.io/sharing" pod.annotations) "disabled"
    then false
    else if is_running pod.phase
    then runs_long_enough now pod.start_time
    else false

module _ (fl : Float64) where
  -- What the collector is given, and the clock.
  pub record Outside : Type 0 where
    pub scan : String → ℤ
    pub prom : Prometheus fl
    pub pods_on : String → Result (List Pod)
    pub now : Time

  abbrev pub is_metric_of : Pod → GpuMetrics fl → Bool
  is_metric_of pod m =
      if str_eq m.pod_name pod.name then str_eq m.pod_namespace pod.namespace else false

  abbrev pub is_waste_of : Pod → WasteMetrics fl → Bool
  is_waste_of pod w =
      if str_eq w.pod_name pod.name then str_eq w.pod_namespace pod.namespace else false

  abbrev pub kept_metrics : Pod → Result (List (GpuMetrics fl)) → Result (List (GpuMetrics fl))
  kept_metrics pod (err e) = err e
  kept_metrics pod (ok ms) = ok (keep (is_metric_of pod) ms)

  -- The metrics that are logged.
  unfoldable pub analyze_gpu_utilization : Outside → Pod → Result (List (GpuMetrics fl))
  unfolding get_gpu_metrics
  analyze_gpu_utilization o pod =
      if is_running pod.phase
      then kept_metrics pod (
          wrap_error "failed to get GPU metrics" (get_gpu_metrics fl o.scan o.prom o.pods_on o.now))
      else ok []

  abbrev pub is_opportunity : Pod → WasteMetrics fl → Bool
  is_opportunity pod w =
      if is_waste_of pod w then fl.lt (fl.of_int (pos 50)) w.waste_score else false

  abbrev pub kept_wastes : Pod → Result (List (WasteMetrics fl)) → Result (List (WasteMetrics fl))
  kept_wastes pod (err e) = err e
  kept_wastes pod (ok ws) = ok (keep (is_opportunity pod) ws)

  -- The wastes that are recommended against, over the last ten minutes.
  unfoldable pub check_optimization_opportunities : Outside → Pod → Result (List (WasteMetrics fl))
  unfolding get_waste_metrics time_sub lookup
  check_optimization_opportunities o pod =
      if is_examined o.now pod
      then kept_wastes pod (
          wrap_error "failed to get waste metrics"
            (get_waste_metrics fl o.scan o.prom o.pods_on (pos 10)))
      else ok []

  -- When to be called again (0: not), the error that is returned, and what was logged.
  pub record Reconciled : Type 0 where
    pub requeue_after : Duration
    pub failure : Option Error
    pub logged_error : Option Error
    pub metrics : List (GpuMetrics fl)
    pub recommended : List (WasteMetrics fl)

  abbrev pub after_check : List (GpuMetrics fl) → Result (List (WasteMetrics fl)) → Reconciled
  after_check metrics (err e) = record {
    requeue_after = reconcile_interval;
    failure = none;
    logged_error = some e;
    metrics = metrics;
    recommended = [];
  }
  after_check metrics (ok ws) = record {
    requeue_after = reconcile_interval;
    failure = none;
    logged_error = none;
    metrics = metrics;
    recommended = ws;
  }

  abbrev pub after_analysis :
      Result (List (WasteMetrics fl)) → Result (List (GpuMetrics fl)) → Reconciled
  after_analysis checked (err e) = record {
    requeue_after = reconcile_interval;
    failure = none;
    logged_error = some e;
    metrics = [];
    recommended = [];
  }
  after_analysis checked (ok ms) = after_check ms checked

  abbrev pub stopped : Option Error → Reconciled
  stopped e = record {
    requeue_after = pos 0;
    failure = e;
    logged_error = none;
    metrics = [];
    recommended = [];
  }

  unfoldable pub reconcile : Outside → Fetched → Reconciled
  unfolding has_gpu_allocation analyze_gpu_utilization check_optimization_opportunities
  reconcile o not_found = stopped none
  reconcile o (failed e) = stopped (some e)
  reconcile o (found pod) =
      if has_gpu_request pod
      then after_analysis (check_optimization_opportunities o pod) (analyze_gpu_utilization o pod)
      else stopped none
