-- ===== src/Cost/Labels.antt =====
-- What `CostTracker` reads off a pod and its node: the helpers of pkg/cost/tracker.go.
use gpuautoscaler.Prelude.{
  ℤ, pos, add64, Bool, false, Option, none, some, String, str_eq, List, [], ◌∷◌, GoMap, map_get,
  lookup, if◌then◌else◌,
}
use gpuautoscaler.Prelude.Float.{Float64}
use gpuautoscaler.Kube.{Pod, Node, Container, gpu_resource, text_at}
use gpuautoscaler.Budget.Spend.{is_present}
use gpuautoscaler.Cost.Tables.{found_or}

abbrev pub small_mig_resource : String
small_mig_resource = "nvidia.com/mig-1g.5gb"

abbrev pub shared_resource : String
shared_resource = "nvidia.com/gpu-shared"

-- `if qty, ok := requests[name]; ok { count += int(qty.Value()) }`
abbrev plus : ℤ → Option ℤ → ℤ
plus count none = count
plus count (some n) = add64 count n

abbrev pub plus_requests : ℤ → GoMap ℤ → ℤ
plus_requests count requests =
    plus (plus (plus count (map_get gpu_resource requests)) (map_get small_mig_resource requests))
      (map_get shared_resource requests)

unfoldable pub get_gpu_count : List Container → ℤ → ℤ
unfolding add64 lookup
get_gpu_count [] count = count
get_gpu_count (c ∷ cs) count = get_gpu_count cs (plus_requests count c.requests)

unfoldable pub get_gpu_type : Node → String
unfolding lookup
get_gpu_type node = found_or (map_get "nvidia.com/gpu.product" node.labels) (
    found_or (map_get "accelerator" node.labels)
      (found_or (map_get "node.kubernetes.io/instance-type" node.labels) "unknown"))

-- `if v, ok := labels[key]; ok && v == value`
abbrev is_labelled : Option String → String → Bool
is_labelled none value = false
is_labelled (some v) value = str_eq v value

unfoldable pub get_capacity_type : Node → String
unfolding lookup
get_capacity_type node = found_or (map_get "karpenter.sh/capacity-type" node.labels) (
    if is_labelled (map_get "cloud.google.com/gke-preemptible" node.labels) "true"
    then "spot"
    else if is_labelled (map_get "kubernetes.azure.com/scalesetpriority" node.labels) "spot"
    then "spot"
    else if str_eq (text_at "node-lifecycle" node.labels) "spot"
    then "spot"
    else "on-demand")

-- The mode that the first container with a shared device tells, if there is one.
unfoldable pub mode_of_requests : List Container → Option String
unfolding lookup
mode_of_requests [] = none
mode_of_requests (c ∷ cs) =
    let rest = mode_of_requests cs in
    if is_present (map_get small_mig_resource c.requests)
    then some "mig"
    else if is_present (map_get shared_resource c.requests)
    then some "mps"
    else rest

unfoldable pub get_sharing_mode : Pod → String
unfolding mode_of_requests lookup
get_sharing_mode pod = found_or (map_get "gpu-autoscaler.io/sharing-mode" pod.annotations) (
    found_or (mode_of_requests pod.containers) (
      if is_present (map_get "gpu-autoscaler.io/timeslicing" pod.annotations)
      then "timeslicing"
      else "exclusive"))

unfoldable pub get_region : Node → String
unfolding lookup
get_region node =
    found_or (map_get "topology.kubernetes.io/region" node.labels)
      (found_or (map_get "failure-domain.beta.kubernetes.io/region" node.labels) "us-east-1")

unfoldable pub get_zone : Node → String
unfolding lookup
get_zone node =
    found_or (map_get "topology.kubernetes.io/zone" node.labels)
      (found_or (map_get "failure-domain.beta.kubernetes.io/zone" node.labels) "")

module _ (fl : Float64) where
  unfoldable pub get_sharing_factor : Pod → String → fl.F
  unfolding lookup
  get_sharing_factor pod mode =
      if str_eq mode "mig"
      then fl.of_int (pos 1)
      else if str_eq mode "mps"
      then (if is_present (map_get "gpu-autoscaler.io/mps-clients" pod.annotations)
          then fl.lit 25 2
          else fl.lit 25 2)
      else if str_eq mode "timeslicing"
      then (if is_present (map_get "gpu-autoscaler.io/timeslice-replicas" pod.annotations)
          then fl.lit 25 2
          else fl.lit 25 2)
      else fl.of_int (pos 1)
