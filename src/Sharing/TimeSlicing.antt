-- ===== src/Sharing/TimeSlicing.antt =====
-- pkg/sharing/timeslicing.go. Of a configuration the fields that something reads.
use gpuautoscaler.Prelude.{
  ℕ, ℤ, pos, ltb_ℤ, Bool, true, false, Option, none, some, List, [], ◌∷◌, ◌++◌, GoMap, map_get,
  lookup, insert, length, keep, String, str_eq, if◌then◌else◌,
}
use gpuautoscaler.Prelude.Float.{Float64}
use gpuautoscaler.Prelude.Results.{Result, Error, ok, ◌>>=◌}
use gpuautoscaler.Kube.{Pod, Node, Toleration, gpu_resource, text_at}
use gpuautoscaler.Sharing.Mig.{entries_of, original_gpu_request}
use gpuautoscaler.Sharing.Mps.{updated, keep_requests, is_suitable, runs_with, scanned, mul64}

pub record TimeSlicingConfig : Type 0 where
  pub replicas_per_gpu : ℤ
  pub default_slice_ms : ℤ
  pub fairness_mode : String

abbrev pub default_time_slicing_config : TimeSlicingConfig
default_time_slicing_config = record {
  replicas_per_gpu = pos 4;
  default_slice_ms = pos 100;
  fairness_mode = "roundrobin";
}

abbrev capable_or_gpu : Option String → Option ℤ → Bool
capable_or_gpu (some v) capacity = str_eq v "true"
capable_or_gpu none none = false
capable_or_gpu none (some n) = true

unfoldable pub is_time_slicing_capable : Result Node → Result Bool
unfolding lookup
is_time_slicing_capable got = got >>= λ node. ok (
    capable_or_gpu (map_get "nvidia.com/time-slicing.capable" node.labels)
      (map_get gpu_resource node.capacity))

-- `node.Status.Capacity["nvidia.com/gpu"]`, which is 0 where it is missing.
abbrev pub capacity_of : Option ℤ → ℤ
capacity_of none = pos 0
capacity_of (some n) = n

abbrev time_slicing_node : (ℤ → String) → TimeSlicingConfig → Node → Node
time_slicing_node decimal config node =
    let replicas = decimal config.replicas_per_gpu in
    let a1 = insert (entries_of node.annotations) "nvidia.com/time-slicing.enabled" "true" in
    let a2 = insert a1 "nvidia.com/time-slicing.replicas" replicas in
    let a3 = insert a2 "nvidia.com/time-slicing.slice-ms" (decimal config.default_slice_ms) in
    let a4 = insert a3 "nvidia.com/time-slicing.fairness" config.fairness_mode in
    let capacity = decimal (capacity_of (map_get gpu_resource node.capacity)) in
    let l1 = insert (entries_of node.labels) "nvidia.com/time-slicing.enabled" "true" in
    record node {
      annotations = some (insert a4 "nvidia.com/gpu.original-capacity" capacity);
      labels = some (insert l1 "nvidia.com/time-slicing.replicas" replicas);
    }

unfoldable pub enable_time_slicing_on_node :
    (ℤ → String) → Result Node → TimeSlicingConfig → Option Error → Option Node × Option Error
unfolding insert lookup
enable_time_slicing_on_node decimal got config answer =
    updated got (time_slicing_node decimal config) answer

abbrev pub time_slicing_annotations : String → GoMap String → GoMap String
time_slicing_annotations request annotations =
    let a1 = insert (entries_of annotations) "gpu-autoscaler.io/original-gpu-request" request in
    let a2 = insert a1 "gpu-autoscaler.io/time-slicing-enabled" "true" in
    some (insert a2 "nvidia.com/time-slicing" "enabled")

abbrev pub time_slicing_key : String
time_slicing_key = "nvidia.com/time-slicing"

-- The loop for `hasTimeSlicingToleration`.
unfoldable pub tolerates : List Toleration → Bool
tolerates [] = false
tolerates (t ∷ ts) = let rest = tolerates ts in if str_eq t.key time_slicing_key then true else rest

abbrev pub tolerating : List Toleration → List Toleration
tolerating ts =
    if tolerates ts
    then ts
    else ts ++ record { key = time_slicing_key; operator = "Exists"; effect = "NoSchedule" } ∷ []

-- `none` is the panic.
unfoldable pub convert_pod_to_time_slicing : (ℤ → String) → Pod → Option Pod
unfolding keep_requests original_gpu_request insert tolerates
convert_pod_to_time_slicing decimal pod = elim (keep_requests (λ n es. es) pod.containers) [
  | none ↦ none
  | some cs ↦ some (record pod {
    annotations =
        time_slicing_annotations (decimal (original_gpu_request (pos 0) pod.containers))
          pod.annotations;
    containers = cs;
    node_selector =
        some (insert (entries_of pod.node_selector) "nvidia.com/time-slicing.enabled" "true");
    tolerations = tolerating pod.tolerations;
  })
]

pub record TimeSlicingStatus : Type 0 where
  pub node_name : String
  pub enabled : Bool
  pub physical_gpus : ℤ
  pub virtual_gpus : ℤ
  pub replicas_per_gpu : ℤ
  pub active_workloads : ℕ

unfoldable pub get_time_slicing_status :
    (String → ℤ) → String → Result Node → Result (List Pod) → Result TimeSlicingStatus
unfolding lookup mul64
get_time_slicing_status scan name got listed = do
  node ← got
  pods ← listed
  let enabled = str_eq (text_at "nvidia.com/time-slicing.enabled" node.annotations) "true"
  let replicas = scanned scan (map_get "nvidia.com/time-slicing.replicas" node.labels)
  let physical = capacity_of (map_get gpu_resource node.capacity)
  ok (record {
    node_name = name;
    enabled = enabled;
    physical_gpus = physical;
    virtual_gpus =
        (if (if enabled then ltb_ℤ (pos 0) replicas else false)
          then mul64 physical replicas
          else physical);
    replicas_per_gpu = replicas;
    active_workloads = length (keep (runs_with time_slicing_key) pods);
  })

module _ (fl : Float64) where
  abbrev pub is_workload_suitable_for_time_slicing : Pod → fl.F → Bool
  is_workload_suitable_for_time_slicing =
      is_suitable fl (fl.of_int (pos 60)) "gpu-autoscaler.io/time-slicing-enabled"

  abbrev pub calculate_optimal_replicas : fl.F → fl.F → ℤ
  calculate_optimal_replicas utilization burstiness =
      if (if fl.lt utilization (fl.of_int (pos 20)) then fl.lt (fl.lit 7 1) burstiness else false)
      then pos 8
      else if (if fl.lt utilization (fl.of_int (pos 40))
          then fl.lt (fl.lit 5 1) burstiness
          else false)
      then pos 4
      else if fl.lt utilization (fl.of_int (pos 60))
      then pos 2
      else pos 1

  abbrev pub convert_fractional_gpu_request : fl.F → ℤ → ℤ
  convert_fractional_gpu_request requested replicas =
      let virtual = fl.trunc (fl.mul requested (fl.of_int replicas)) in
      if ltb_ℤ virtual (pos 1) then pos 1 else virtual
