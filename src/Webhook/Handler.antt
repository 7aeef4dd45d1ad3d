-- ===== src/Webhook/Handler.antt =====
-- `GPUOptimizationWebhook`. The decoded pod, the answer of `json.Marshal` and the value that the context
-- has under "timestamp" are arguments; a patch is given as the pod that it leads to.
use gpuautoscaler.Prelude.{
  ℕ, ◌*◌, ◌^◌, ℤ, pos, add64, eqb_ℤ, ltb_ℤ, Bool, true, false, Option, none, some, List, [], ◌∷◌,
  map_get, lookup, insert, String, str_eq, if◌then◌else◌,
}
use gpuautoscaler.Prelude.Results.{Result, Error, ok, err, message}
use gpuautoscaler.Kube.{Pod, Container, gpu_resource, text_at}
use gpuautoscaler.Budget.Spend.{is_present}
use gpuautoscaler.Sharing.Mig.{MigProfile, entries_of, get_mig_profile, convert_pod_to_mig}
use gpuautoscaler.Sharing.Mps.{workload_type, default_mps_config, convert_pod_to_mps}
use gpuautoscaler.Sharing.TimeSlicing.{convert_pod_to_time_slicing}
use gpuautoscaler.Sharing.Savings.{gpu_request, memory_request}

pub record GpuOptimizationWebhook : Type 0 where
  pub enable_mig : Bool
  pub enable_mps : Bool
  pub enable_ts : Bool

unfoldable pub has_gpu_request : List Container → Bool
unfolding lookup
has_gpu_request [] = false
has_gpu_request (c ∷ cs) =
    let rest = has_gpu_request cs in
    if is_present (map_get gpu_resource c.requests)
    then true
    else if is_present (map_get gpu_resource c.limits)
    then true
    else rest

abbrev pub sharing_mode : String
sharing_mode = "gpu-autoscaler.io/sharing-mode"

-- The strategy for a pod without an explicit one.
abbrev pub strategy_of : GpuOptimizationWebhook → ℤ → ℤ → String → Bool → String
strategy_of w gpus memory kind shares =
    if str_eq kind "training"
    then "exclusive"
    else if (if w.enable_mig
        then (if eqb_ℤ gpus (pos 1) then ltb_ℤ memory (pos (20 * 2 ^ 30)) else false)
        else false)
    then "mig"
    else if (if w.enable_mps then str_eq kind "inference" else false)
    then "mps"
    else if (if w.enable_ts
        then (if str_eq kind "development" then true else str_eq kind "batch")
        else false)
    then "timeslicing"
    else if (if shares then w.enable_mps else false)
    then "mps"
    else if (if shares then w.enable_ts else false)
    then "timeslicing"
    else "exclusive"

abbrev explicit_or : Option String → String → String
explicit_or none other = other
explicit_or (some s) other = s

-- It never returns an error.
unfoldable pub select_optimization_strategy : GpuOptimizationWebhook → Pod → String
unfolding lookup gpu_request memory_request
select_optimization_strategy w pod = explicit_or (map_get sharing_mode pod.annotations) (
    strategy_of w (gpu_request (pos 0) pod.containers) (memory_request (pos 0) pod.containers)
      (text_at workload_type pod.labels)
      (str_eq (text_at "gpu-autoscaler.io/sharing" pod.annotations) "enabled"))

-- The metadata of an optimization: `ctx.Value("timestamp").(string)` panics when there is no value.
abbrev pub stamped : String → Option String → Pod → Option Pod
stamped strategy none pod = none
stamped strategy (some timestamp) pod =
    let a1 = insert (entries_of pod.annotations) "gpu-autoscaler.io/optimized" "true" in
    let a2 = insert a1 "gpu-autoscaler.io/optimization-strategy" strategy in
    some (record pod {
      annotations = some (insert a2 "gpu-autoscaler.io/optimization-timestamp" timestamp);
    })

abbrev pub and_stamped : String → Option String → Option Pod → Option (Result Pod)
and_stamped strategy timestamp none = none
and_stamped strategy timestamp (some pod) = elim (stamped strategy timestamp pod) [
  | none ↦ none
  | some p ↦ some (ok p)
]

-- Each optimization: `none` is a panic.
abbrev pub with_profile :
    (ℤ → String) → Option String → Pod → Option MigProfile → Option (Result Pod)
with_profile decimal timestamp pod none = some (err (message "failed to get MIG profile"))
with_profile decimal timestamp pod (some p) =
    and_stamped "mig" timestamp (convert_pod_to_mig decimal pod p)

unfoldable pub apply_mig_optimization : (ℤ → String) → Option String → Pod → Option (Result Pod)
unfolding get_mig_profile convert_pod_to_mig gpu_request memory_request insert
apply_mig_optimization decimal timestamp pod =
    with_profile decimal timestamp pod
      (get_mig_profile (gpu_request (pos 0) pod.containers) (memory_request (pos 0) pod.containers))

unfoldable pub apply_mps_optimization : (ℤ → String) → Option String → Pod → Option (Result Pod)
unfolding convert_pod_to_mps insert
apply_mps_optimization decimal timestamp pod =
    and_stamped "mps" timestamp (convert_pod_to_mps decimal pod default_mps_config)

unfoldable pub apply_time_slicing_optimization :
    (ℤ → String) → Option String → Pod → Option (Result Pod)
unfolding convert_pod_to_time_slicing insert
apply_time_slicing_optimization decimal timestamp pod =
    and_stamped "timeslicing" timestamp (convert_pod_to_time_slicing decimal pod)

pub data Response : Type 0 where
  allowed : String → Response
  errored : ℕ → Error → Response
  patched : Pod → Response

abbrev pub marshalled : Option Error → Pod → Response
marshalled (some e) pod = errored 500 e
marshalled none pod = patched pod

-- What becomes of an optimization: its error is only logged.
abbrev pub concluded : Option Error → Option (Result Pod) → Option Response
concluded marshal none = none
concluded marshal (some (err e)) = some (allowed "no optimizations applied")
concluded marshal (some (ok pod)) = some (marshalled marshal pod)

abbrev pub untouched : Option Response
untouched = some (allowed "no optimizations applied")

-- The switch over the strategy.
unfoldable pub optimized :
    GpuOptimizationWebhook
    → (ℤ → String)
    → Option String
    → Option Error
    → String
    → Pod
    → Option Response
unfolding apply_mig_optimization apply_mps_optimization apply_time_slicing_optimization
optimized w decimal timestamp marshal strategy pod =
    if str_eq strategy "mig"
    then (if w.enable_mig
        then concluded marshal (apply_mig_optimization decimal timestamp pod)
        else untouched)
    else if str_eq strategy "mps"
    then (if w.enable_mps
        then concluded marshal (apply_mps_optimization decimal timestamp pod)
        else untouched)
    else if str_eq strategy "timeslicing"
    then (if w.enable_ts
        then concluded marshal (apply_time_slicing_optimization decimal timestamp pod)
        else untouched)
    else untouched

abbrev pub admitted :
    GpuOptimizationWebhook → (ℤ → String) → Option String → Option Error → Pod → Option Response
admitted w decimal timestamp marshal pod =
    if has_gpu_request pod.containers
    then (if str_eq (text_at "gpu-autoscaler.io/optimize" pod.annotations) "false"
        then some (allowed "optimization disabled")
        else optimized w decimal timestamp marshal (select_optimization_strategy w pod) pod)
    else some (allowed "no GPU requests")

abbrev decoded_or_bad :
    GpuOptimizationWebhook
    → (ℤ → String)
    → Option String
    → Option Error
    → Result Pod
    → Option Response
decoded_or_bad w decimal timestamp marshal (err e) = some (errored 400 e)
decoded_or_bad w decimal timestamp marshal (ok pod) = admitted w decimal timestamp marshal pod

-- `Handle`; `none` is a panic.
unfoldable pub handle :
    GpuOptimizationWebhook
    → (ℤ → String)
    → Option String
    → Option Error
    → Result Pod
    → Option Response
unfolding has_gpu_request select_optimization_strategy optimized lookup
handle w decimal timestamp marshal decoded = decoded_or_bad w decimal timestamp marshal decoded

pub record OptimizationStats : Type 0 where
  pub total_requests : ℤ
  pub optimized_pods : ℤ
  pub mig_optimizations : ℤ
  pub mps_optimizations : ℤ
  pub ts_optimizations : ℤ
  pub failed_optimizations : ℤ

abbrev one_more : ℤ → ℤ
one_more n = add64 n (pos 1)

abbrev by_strategy : String → OptimizationStats → OptimizationStats
by_strategy strategy s =
    if str_eq strategy "mig"
    then record s { mig_optimizations = one_more s.mig_optimizations }
    else if str_eq strategy "mps"
    then record s { mps_optimizations = one_more s.mps_optimizations }
    else if str_eq strategy "timeslicing"
    then record s { ts_optimizations = one_more s.ts_optimizations }
    else s

unfoldable pub record_optimization : String → Bool → OptimizationStats → OptimizationStats
unfolding add64
record_optimization strategy success s =
    let counted = record s { total_requests = one_more s.total_requests } in
    if success
    then by_strategy strategy (record counted { optimized_pods = one_more s.optimized_pods })
    else record counted { failed_optimizations = one_more s.failed_optimizations }
