-- ===== src/Spot/Evict.antt =====
-- The eviction of a node's pods: `getPodEvictionPriority`, `evictPods` and `gracefullyEvictPods`.
use gpuautoscaler.Prelude.{
  ℕ, ◌*◌, ℤ, pos, ltb_ℤ, Option, none, some, String, str_eq, List, [], ◌∷◌, ◌++◌, lookup, delete,
  Entries, map_get, if◌then◌else◌,
}
use gpuautoscaler.Prelude.Results.{Result, ok, err}
use gpuautoscaler.Prelude.Time.{Time, Duration, second}
use gpuautoscaler.Kube.{Pod}

abbrev eviction_priority_label : String
eviction_priority_label = "gpu-autoscaler.io/eviction-priority"

abbrev pub high : String
high = "high"

abbrev pub medium : String
medium = "medium"

abbrev pub low : String
low = "low"

abbrev workload_type_label : String
workload_type_label = "gpu-autoscaler.io/workload-type"

-- The priority class: only the highest ones count.
abbrev by_class : Option ℤ → String
by_class none = medium
by_class (some p) = if ltb_ℤ (pos 1000) p then high else medium

abbrev by_type : Option String → Option ℤ → String
by_type none p = by_class p
by_type (some t) p =
    if str_eq t "training"
    then high
    else if str_eq t "inference"
    then medium
    else if str_eq t "serving"
    then medium
    else if str_eq t "development"
    then low
    else if str_eq t "batch"
    then low
    else by_class p

abbrev by_annotation : Option String → String → String
by_annotation none other = other
by_annotation (some p) other = p

unfoldable pub get_pod_eviction_priority : Pod → String
unfolding lookup
get_pod_eviction_priority pod =
    by_annotation (map_get eviction_priority_label pod.annotations)
      (by_type (map_get workload_type_label pod.labels) pod.priority)

-- The three lists of pods.
pub record Split : Type 0 where
  pub high_pods : List Pod
  pub medium_pods : List Pod
  pub low_pods : List Pod

abbrev pub put : String → Pod → Split → Split
put priority pod s =
    if str_eq priority high
    then record s { high_pods = s.high_pods ++ pod ∷ [] }
    else if str_eq priority medium
    then record s { medium_pods = s.medium_pods ++ pod ∷ [] }
    else if str_eq priority low
    then record s { low_pods = s.low_pods ++ pod ∷ [] }
    else s

unfoldable pub split_pods : List Pod → Split → Split
unfolding get_pod_eviction_priority
split_pods [] s = s
split_pods (p ∷ ps) s = split_pods ps (put (get_pod_eviction_priority p) p s)

-- The calls of a worker: a deletion with its grace period in seconds, and a sleep.
pub data Call : Type 0 where
  delete_pod : Pod → ℕ → Call
  sleep : Duration → Call

-- An error of a deletion is logged.
unfoldable pub evict_pods : List Pod → ℕ → List Call
evict_pods [] grace = []
evict_pods (p ∷ ps) grace = delete_pod p grace ∷ evict_pods ps grace

abbrev pub pause : Call
pause = sleep (pos (10 * second))

unfoldable pub evict_in_order : Split → List Call
unfolding evict_pods
evict_in_order s =
    evict_pods s.low_pods 0
    ++ pause ∷ evict_pods s.medium_pods 0
    ++ pause ∷ evict_pods s.high_pods 30

-- `gracefullyEvictPods` with the answer to its list: the calls, and the warnings that it leaves.
unfoldable pub gracefully_evict_pods :
    Result (List Pod) → String → Entries Time → List Call × Entries Time
unfolding split_pods evict_in_order delete
gracefully_evict_pods (err e) node_name warnings = ([], warnings)
gracefully_evict_pods (ok pods) node_name warnings = (
  evict_in_order (split_pods pods (record { high_pods = []; medium_pods = []; low_pods = [] })),
  delete warnings node_name,
)
