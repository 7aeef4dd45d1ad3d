-- ===== src/Spot/Examples.antt =====
-- Tests of pkg/autoscaler/spot_orchestrator.go, and its theorems at two nodes.
use gpuautoscaler.Prelude.{
  ◌≡◌, lookup, ◌*◌, ◌++◌, refl, pos, true, false, none, some, List, [], ◌∷◌, keep, entry, String,
  str_eq, if◌then◌else◌,
}
use mathlib.Core.List.{Perm}
use gpuautoscaler.Prelude.Results.{message, ok, err, wrapped}
use gpuautoscaler.Prelude.Time.{Time, second}
use gpuautoscaler.Kube.{Pod, Node, running}
use gpuautoscaler.Autoscaler.Model.{capacity_type_label}
use gpuautoscaler.Spot.Model.{
  NodeAnswers, UpdateAnswers, new_spot_orchestrator, with_annotations, check_spot_terminations,
  handle_spot_termination, after_handling,
}
use gpuautoscaler.Spot.Evict.{high, medium, low, delete_pod, sleep, gracefully_evict_pods}
use gpuautoscaler.Spot.Steps.{done, check_spot_terminations-Steps}
use gpuautoscaler.Spot.Notices.{or_else, time_of, both_succeed, is_evicting, is_new}
use gpuautoscaler.Spot.Checks.{has_spot, check_spot_terminations-IsChecked}
use gpuautoscaler.Spot.Workers.{IsWatched, new-IsWatched, Steps-IsWatched}
use gpuautoscaler.Spot.Abandoned.{ignored, handle_spot_termination-ignored}
use gpuautoscaler.Spot.Priorities.{
  of_priority, deletions, all_at, pods_of, has_priority, gracefully_evict_pods-sorted,
}

abbrev host : String → Node
host name = record {
  name = name;
  labels = some (entry capacity_type_label "spot" ∷ []);
  annotations = none;
  capacity = none;
  unschedulable = false;
}

abbrev pod_with : String → String → Pod
pod_with name priority = record {
  name = name;
  namespace = "default";
  node_name = "a";
  phase = running;
  labels = none;
  annotations = some (entry "gpu-autoscaler.io/eviction-priority" priority ∷ []);
  containers = [];
  priority = none;
  created = pos 0;
  start_time = none;
  node_selector = none;
  tolerations = [];
}

abbrev shown : Time → String
shown t = "2024-01-01T00:00:00Z"

-- The first update of "a" is refused.
abbrev answers : String → NodeAnswers
answers name = record {
  notice = ok (some (pos 500));
  updates = record {
    to_annotations = if str_eq name "a" then some (message "conflict") else none;
    to_cordon = none;
  };
}

abbrev two_nodes : List Node
two_nodes = host "a" ∷ host "b" ∷ []

abbrev pods : List Pod
pods = pod_with "p" high ∷ pod_with "q" low ∷ pod_with "r" "critical" ∷ pod_with "s" medium ∷ []

-- "a" has a warning and no worker, "b" has both.
after_check :
    (check_spot_terminations shown answers (ok two_nodes) new_spot_orchestrator).0 ≡ record {
      termination_warnings = entry "a" (pos 500) ∷ entry "b" (pos 500) ∷ [];
      workers =
          record (with_annotations "2024-01-01T00:00:00Z" (host "b")) { unschedulable = true } ∷ [];
    }
unfolding check_spot_terminations
after_check = refl

evicted : gracefully_evict_pods (ok pods) "a" (entry "a" (pos 500) ∷ []) ≡ (
  delete_pod (pod_with "q" low) 0
      ∷ sleep (pos 10_000_000_000)
      ∷ delete_pod (pod_with "s" medium) 0
      ∷ sleep (pos 10_000_000_000)
      ∷ delete_pod (pod_with "p" high) 30
      ∷ [],
  [],
)
unfolding gracefully_evict_pods
evicted = refl

-- A node of another capacity is passed over, though there is a notice.
abbrev on_demand : Node
on_demand = record (host "c") { labels = some (entry capacity_type_label "on-demand" ∷ []) }

check_spot_terminations-IsChecked_example :
    let s' =
      (check_spot_terminations shown answers
        (ok (on_demand ∷ two_nodes))
        new_spot_orchestrator).0 in
    let after = lookup s'.termination_warnings "c" in
    (after
      ≡ or_else none
          (if has_spot "c" (on_demand ∷ two_nodes) then time_of (answers "c").notice else none))
    × (is_evicting "c" s'.workers ≡ (
        if is_evicting "c" []
        then true
        else if is_new none after
        then both_succeed (answers "c").updates
        else false))
    × ((check_spot_terminations shown answers (ok (on_demand ∷ two_nodes)) new_spot_orchestrator).1
        ≡ none)
    × (check_spot_terminations shown answers (err (message "down")) new_spot_orchestrator
        ≡ (new_spot_orchestrator, some (wrapped "failed to get spot nodes" (message "down"))))
unfolding lookup is_evicting
check_spot_terminations-IsChecked_example =
    check_spot_terminations-IsChecked shown "c" answers (on_demand ∷ two_nodes)
      new_spot_orchestrator (message "down")

Steps-IsWatched_example :
    IsWatched (check_spot_terminations shown answers (ok two_nodes) new_spot_orchestrator).0
Steps-IsWatched_example =
    Steps-IsWatched shown
      (check_spot_terminations-Steps shown answers (ok two_nodes) (message "down")
        new_spot_orchestrator).0
      new-IsWatched

abbrev refused : UpdateAnswers
refused = record { to_annotations = some (message "conflict"); to_cordon = none }

abbrev accepted : UpdateAnswers
accepted = record { to_annotations = none; to_cordon = none }

handle_spot_termination-ignored_example :
    let given_up =
      after_handling new_spot_orchestrator
        (handle_spot_termination shown refused (host "a") (pos 500) []) in
    handle_spot_termination shown accepted (host "a") (pos 600) given_up.termination_warnings
    ≡ ignored given_up.termination_warnings
unfolding handle_spot_termination
handle_spot_termination-ignored_example =
    handle_spot_termination-ignored shown (host "a") (pos 500) new_spot_orchestrator refused
      new-IsWatched (λ e. cc) done accepted (pos 600)

gracefully_evict_pods-sorted_example :
    let deleted = deletions (pos 0) (gracefully_evict_pods (ok pods) "a" []).0 in
    (deleted
      ≡ all_at (pos 0) 0 (of_priority "low" pods)
        ++ all_at (pos (10 * second)) 0 (of_priority "medium" pods)
        ++ all_at (pos (20 * second)) 30 (of_priority "high" pods))
    × Perm (pods_of deleted) (keep has_priority pods)
gracefully_evict_pods-sorted_example = gracefully_evict_pods-sorted pods "a" []
