-- ===== src/Scheduler/Discover.antt =====
-- `getGPUNodes`, `getPendingGPUWorkloads` and `GetGPURequestFromPod`: what the API's lists hold.
use gpuautoscaler.Prelude.{
  ℤ, pos, String, Bool, true, false, Option, none, some, List, [], ◌∷◌, ◌++◌, if◌then◌else◌, add64,
  sub64, map_get, str_eq,
}
use gpuautoscaler.Prelude.Results.{Result, ok, ◌>>=◌}
use gpuautoscaler.Kube.{
  Pod, Node, Container, is_running, is_pending, text_at, gpu_resource, memory_resource,
}
use gpuautoscaler.Scheduler.Model.{GpuNode, GpuWorkload}

-- The running sum of one resource and whether any container asks for it.
abbrev pub add_request : String → Container → ℤ → ℤ
add_request key c total = elim (map_get key c.requests) [ none ↦ total | some q ↦ add64 total q ]

unfoldable pub sum_requests : String → List Container → ℤ → ℤ
sum_requests key [] total = total
sum_requests key (c ∷ cs) total = sum_requests key cs (add_request key c total)

unfoldable pub has_request : String → List Container → Bool
has_request key [] = false
has_request key (c ∷ cs) = elim (map_get key c.requests) [
  | none ↦ has_request key cs
  | some q ↦ true
]

unfoldable pub get_gpu_request_from_pod : Pod → ℤ
unfolding sum_requests
get_gpu_request_from_pod pod = sum_requests gpu_resource pod.containers (pos 0)

-- The pod once for each of its containers that asks for GPUs.
unfoldable pub copies : Pod → List Container → List Pod
copies pod [] = []
copies pod (c ∷ cs) = elim (map_get gpu_resource c.requests) [
  | none ↦ copies pod cs
  | some q ↦ pod ∷ copies pod cs
]

-- The loop over the pods of a node: the GPUs that they hold, and `allocatedPods`.
unfoldable pub allocate : List Pod → ℤ → List Pod → ℤ × List Pod
unfolding sum_requests copies
allocate [] gpus pods = (gpus, pods)
allocate (p ∷ ps) gpus pods =
    let counted = is_running p.phase in
    allocate ps (if counted then sum_requests gpu_resource p.containers gpus else gpus)
      (if counted then pods ++ copies p p.containers else pods)

abbrev is_true : String → Node → Bool
is_true key node = str_eq (text_at key node.labels) "true"

unfoldable pub gpu_node : Node → ℤ → List Pod → GpuNode
unfolding allocate
gpu_node node capacity pods =
    let (allocated, holders) = allocate pods (pos 0) [] in
    record {
      name = node.name;
      total_gpus = capacity;
      available_gpus = sub64 capacity allocated;
      gpu_type = text_at "nvidia.com/gpu.product" node.labels;
      allocated_pods = holders;
      supports_mig = is_true "nvidia.com/mig.capable" node;
      supports_mps = is_true "nvidia.com/mps.capable" node;
      supports_time_slice = is_true "nvidia.com/time-slicing.capable" node;
    }

-- `pods_on` is the API's list of the pods of a node.
unfoldable pub get_gpu_nodes_loop : (String → Result (List Pod)) → List Node → Result (List GpuNode)
unfolding gpu_node
get_gpu_nodes_loop pods_on [] = ok []
get_gpu_nodes_loop pods_on (node ∷ nodes) = elim (map_get gpu_resource node.capacity) [
  | none ↦ get_gpu_nodes_loop pods_on nodes
  | some capacity ↦ pods_on node.name >>= λ pods.
      get_gpu_nodes_loop pods_on nodes >>= λ rest. ok (gpu_node node capacity pods ∷ rest)
]

unfoldable pub get_gpu_nodes :
    Result (List Node) → (String → Result (List Pod)) → Result (List GpuNode)
unfolding get_gpu_nodes_loop
get_gpu_nodes listed pods_on = listed >>= get_gpu_nodes_loop pods_on

abbrev or_exclusive : String → String
or_exclusive mode = if str_eq mode "" then "exclusive" else mode

abbrev or_zero : Option ℤ → ℤ
or_zero none = pos 0
or_zero (some p) = p

unfoldable pub gpu_workload : Pod → GpuWorkload
unfolding sum_requests
gpu_workload pod = record {
  pod = pod;
  gpu_request = sum_requests gpu_resource pod.containers (pos 0);
  memory_request = sum_requests memory_resource pod.containers (pos 0);
  priority = or_zero pod.priority;
  sharing_enabled = str_eq (text_at "gpu-autoscaler.io/sharing" pod.annotations) "enabled";
  preferred_mode = or_exclusive (text_at "gpu-autoscaler.io/sharing-mode" pod.annotations);
}

abbrev pub is_candidate : Pod → Bool
is_candidate pod = if is_pending pod.phase then has_request gpu_resource pod.containers else false

unfoldable pub workloads_of : List Pod → List GpuWorkload
unfolding gpu_workload has_request
workloads_of [] = []
workloads_of (p ∷ ps) =
    let rest = workloads_of ps in if is_candidate p then gpu_workload p ∷ rest else rest

unfoldable pub get_pending_gpu_workloads : Result (List Pod) → Result (List GpuWorkload)
unfolding workloads_of
get_pending_gpu_workloads listed = listed >>= λ pods. ok (workloads_of pods)
