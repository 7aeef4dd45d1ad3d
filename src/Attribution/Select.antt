-- ===== src/Attribution/Select.antt =====
-- `getMatchingPods`: the pods that an attribution counts.
use gpuautoscaler.Prelude.{
  Bool, true, false, Option, none, some, String, str_eq, List, [], ◌∷◌, keep, GoMap, Entries,
  if◌then◌else◌,
}
use gpuautoscaler.Prelude.Results.{Result, ok, ◌>>=◌}
use gpuautoscaler.Kube.{Pod, is_running, text_at}
use gpuautoscaler.Budget.Spend.{PodsApi, costs_gpu}

pub record CostAttributionSpec : Type 0 where
  pub namespace : String
  pub labels : GoMap String
  pub experiment_id : String
  pub team : String
  pub project : String
  pub cost_center : String
  pub tags : GoMap String

-- `if wanted != "" { if pod.Labels[key] != wanted { continue } }`
abbrev pub is_wanted : String → String → Pod → Bool
is_wanted wanted key pod = if str_eq wanted "" then true else str_eq (text_at key pod.labels) wanted

unfoldable pub has_entries : Entries String → Pod → Bool
has_entries [] pod = true
has_entries (e ∷ es) pod =
    let rest = has_entries es pod in
    if str_eq (text_at e.key pod.labels) e.value then rest else false

abbrev pub has_tags : GoMap String → Pod → Bool
has_tags none pod = true
has_tags (some tags) pod = has_entries tags pod

abbrev pub has_labels : CostAttributionSpec → Pod → Bool
has_labels spec pod =
    if is_wanted spec.experiment_id "experiment-id" pod
    then (if is_wanted spec.team "team" pod
        then (if is_wanted spec.project "project" pod
            then (if is_wanted spec.cost_center "cost-center" pod
                then has_tags spec.tags pod
                else false)
            else false)
        else false)
    else false

unfoldable pub is_matching : CostAttributionSpec → Pod → Bool
unfolding has_entries costs_gpu
is_matching spec pod =
    if is_running pod.phase
    then (if has_labels spec pod then costs_gpu pod.containers else false)
    else false

-- `InNamespace` is among the options only if the attribution names a namespace.
abbrev pub namespace_option : CostAttributionSpec → Option String
namespace_option spec = if str_eq spec.namespace "" then none else some spec.namespace

unfoldable pub get_matching_pods : PodsApi → CostAttributionSpec → Result (List Pod)
unfolding is_matching
get_matching_pods api spec = do
  pods ← api (namespace_option spec) spec.labels
  ok (keep (is_matching spec) pods)
