-- ===== src/Autoscaler/Observe.antt =====
-- `getGPUNodes`, `getPendingGPUPods`, `isGPUPod` and the utilization of nodes.
use gpuautoscaler.Prelude.{
  ℕ, suc, ℤ, pos, Bool, true, false, Option, none, some, List, [], ◌∷◌, keep, length, if◌then◌else◌,
  ltb, ltb_ℤ, map_get, GoMap, Entries, String, str_eq,
}
use gpuautoscaler.Prelude.Text.{bytes, first, same_bytes}
use gpuautoscaler.Prelude.Float.{Float64}
use gpuautoscaler.Prelude.Results.{Result, ok, err, ◌>>=◌}
use gpuautoscaler.Kube.{Pod, Node, Container, is_pending, gpu_resource}
use gpuautoscaler.Autoscaler.Model.{GpuMetrics, AutoscalerConfig}

abbrev pub is_some {ℓ} : {A : Type ℓ} → Option A → Bool
is_some none = false
is_some (some a) = true

abbrev pub has_gpu_capacity : Node → Bool
has_gpu_capacity node = is_some (map_get gpu_resource node.capacity)

unfoldable pub get_gpu_nodes : Result (List Node) → Result (List Node)
get_gpu_nodes listed = listed >>= λ nodes. ok (keep has_gpu_capacity nodes)

-- `len(resourceName) > 11 && string(resourceName)[:11] == "nvidia.com/mig-"`
abbrev pub names_mig : String → Bool
names_mig name =
    if ltb 11 (length (bytes name))
    then same_bytes (first 11 (bytes name)) (bytes "nvidia.com/mig-")
    else false

unfoldable pub any_mig : Entries ℤ → Bool
any_mig [] = false
any_mig (e ∷ es) = let rest = any_mig es in if names_mig e.key then true else rest

abbrev pub any_mig_in : GoMap ℤ → Bool
any_mig_in none = false
any_mig_in (some es) = any_mig es

-- The loop of `isGPUPod` over the containers.
unfoldable pub gpu_containers : List Container → Bool
unfolding any_mig
gpu_containers [] = false
gpu_containers (c ∷ cs) =
    let rest = gpu_containers cs in
    if is_some (map_get gpu_resource c.requests)
    then true
    else if any_mig_in c.requests
    then true
    else rest

unfoldable pub is_gpu_pod : Pod → Bool
unfolding gpu_containers
is_gpu_pod pod = gpu_containers pod.containers

abbrev pub is_pending_gpu_pod : Pod → Bool
is_pending_gpu_pod pod = if is_pending pod.phase then is_gpu_pod pod else false

unfoldable pub get_pending_gpu_pods : Result (List Pod) → Result (List Pod)
get_pending_gpu_pods listed = listed >>= λ pods. ok (keep is_pending_gpu_pod pods)

-- `getOldestPendingPod` behind its first pod.
unfoldable pub oldest_from : Pod → List Pod → Pod
oldest_from oldest [] = oldest
oldest_from oldest (p ∷ ps) = oldest_from (if ltb_ℤ p.created oldest.created then p else oldest) ps

module _ (fl : Float64) where
  unfoldable pub total_utilization : List (GpuMetrics fl) → fl.F → fl.F
  total_utilization [] total = total
  total_utilization (m ∷ ms) total = total_utilization ms (fl.add total m.gpu_utilization)

  abbrev pub mean : List (GpuMetrics fl) → fl.F
  mean [] = fl.of_int (pos 0)
  mean ms = fl.div (total_utilization ms (fl.of_int (pos 0))) (fl.of_int (pos (length ms)))

  unfoldable pub get_average_gpu_utilization : Result (List (GpuMetrics fl)) → Result fl.F
  unfolding total_utilization
  get_average_gpu_utilization answer = answer >>= λ ms. ok (mean ms)

  unfoldable pub get_node_gpu_utilization : Result (List (GpuMetrics fl)) → String → Result fl.F
  unfolding total_utilization
  get_node_gpu_utilization answer node_name =
      answer >>= λ ms. ok (mean (keep (λ m. str_eq m.node_name node_name) ms))

  abbrev pub is_low : AutoscalerConfig fl → Result fl.F → Bool
  is_low config (err e) = false
  is_low config (ok u) = fl.lt u config.scale_down_threshold

  -- `metrics_for` is the collector's answer to the call made for a node.
  unfoldable pub count_underutilized_nodes :
      AutoscalerConfig fl → (String → Result (List (GpuMetrics fl))) → List Node → ℕ
  unfolding get_node_gpu_utilization
  count_underutilized_nodes config metrics_for [] = 0
  count_underutilized_nodes config metrics_for (n ∷ ns) =
      let rest = count_underutilized_nodes config metrics_for ns in
      if is_low config (get_node_gpu_utilization (metrics_for n.name) n.name)
      then suc rest
      else rest
