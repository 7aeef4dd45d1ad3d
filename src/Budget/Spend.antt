-- ===== src/Budget/Spend.antt =====
-- `getScopePods` and `calculateScopeSpend`. The API, the database and the cost tracker answer through
-- arguments.
use gpuautoscaler.Prelude.{
  ℤ, pos, Bool, true, false, Option, none, some, List, [], ◌∷◌, ◌++◌, keep, if◌then◌else◌, ltb_ℤ,
  map_get, GoMap, Entries, String, str_eq,
}
use gpuautoscaler.Prelude.Text.{bytes, first, same_bytes}
use gpuautoscaler.Prelude.Float.{Float64}
use gpuautoscaler.Prelude.Results.{Result, ok, err, ◌>>=◌}
use gpuautoscaler.Prelude.Time.{Time, zero_time, is_zero}
use gpuautoscaler.Kube.{Pod, Container, is_running, gpu_resource, text_at}
use gpuautoscaler.Budget.Model.{BudgetScope}

abbrev pub is_present {ℓ} : {A : Type ℓ} → Option A → Bool
is_present none = false
is_present (some a) = true

-- `strings.HasPrefix(resourceName, "nvidia.com/mig-")`
abbrev pub has_mig_prefix : String → Bool
has_mig_prefix name = same_bytes (first 15 (bytes name)) (bytes "nvidia.com/mig-")

unfoldable pub any_mig_prefix : Entries ℤ → Bool
any_mig_prefix [] = false
any_mig_prefix (e ∷ es) =
    let rest = any_mig_prefix es in if has_mig_prefix e.key then true else rest

abbrev pub asks_for_gpu : GoMap ℤ → Bool
asks_for_gpu none = false
asks_for_gpu (some es) =
    if is_present (map_get gpu_resource (some es))
    then true
    else if any_mig_prefix es
    then true
    else is_present (map_get "nvidia.com/gpu-shared" (some es))

-- `isGPUPod` of pkg/cost/tracker.go
unfoldable pub costs_gpu : List Container → Bool
costs_gpu [] = false
costs_gpu (c ∷ cs) = let rest = costs_gpu cs in if asks_for_gpu c.requests then true else rest

unfoldable pub one_of : String → List String → Bool
one_of name [] = false
one_of name (x ∷ xs) = let rest = one_of name xs in if str_eq name x then true else rest

abbrev pub is_experiment : BudgetScope → Pod → Bool
is_experiment scope pod =
    if str_eq scope.experiment_id ""
    then true
    else str_eq (text_at "experiment-id" pod.labels) scope.experiment_id

abbrev pub in_teams : List String → Pod → Bool
in_teams [] pod = true
in_teams teams pod = one_of (text_at "team" pod.labels) teams

unfoldable pub is_in_scope : BudgetScope → Pod → Bool
unfolding one_of costs_gpu
is_in_scope scope pod =
    if is_running pod.phase
    then (if is_experiment scope pod
        then (if in_teams scope.teams pod then costs_gpu pod.containers else false)
        else false)
    else false

-- The API's lists: of the pods of a namespace (none: of all) with some labels.
abbrev pub PodsApi : Type 0
PodsApi = Option String → GoMap String → Result (List Pod)

unfoldable pub list_namespaces : PodsApi → GoMap String → List String → Result (List Pod)
list_namespaces api labels [] = ok []
list_namespaces api labels (n ∷ ns) = do
  pods ← api (some n) labels
  rest ← list_namespaces api labels ns
  ok (pods ++ rest)

abbrev pub list_scope : PodsApi → GoMap String → List String → Result (List Pod)
list_scope api labels [] = api none labels
list_scope api labels namespaces = list_namespaces api labels namespaces

unfoldable pub get_scope_pods : PodsApi → BudgetScope → Result (List Pod)
unfolding list_namespaces is_in_scope
get_scope_pods api scope = do
  pods ← list_scope api scope.labels scope.namespaces
  ok (keep (is_in_scope scope) pods)

-- The loop for the earliest start of a pod.
abbrev pub earlier : Time → Option Time → Time
earlier earliest none = earliest
earlier earliest (some t) = if is_zero earliest then t else if ltb_ℤ t earliest then t else earliest

unfoldable pub earliest_start : Time → List Pod → Time
earliest_start earliest [] = earliest
earliest_start earliest (p ∷ ps) = earliest_start (earlier earliest p.start_time) ps

module _ (fl : Float64) where
  -- The answers for a namespace or a team and a range of times; of the tracker for a pod.
  pub record Records : Type 0 where
    pub by_namespace : String → Time → Time → Result fl.F
    pub by_team : String → Time → Time → Result fl.F

  abbrev pub add_answer : fl.F → Result fl.F → fl.F
  add_answer total (ok cost) = fl.add total cost
  add_answer total (err e) = total

  unfoldable pub add_recorded : (String → Result fl.F) → List String → fl.F → fl.F
  add_recorded query [] total = total
  add_recorded query (x ∷ xs) total = add_recorded query xs (add_answer total (query x))

  -- By namespace if the scope names namespaces, else by team if it names teams.
  abbrev pub recorded_in : Records → Time → Time → List String → List String → fl.F → fl.F
  recorded_in db from to [] teams total = add_recorded (λ t. db.by_team t from to) teams total
  recorded_in db from to namespaces teams total =
      add_recorded (λ n. db.by_namespace n from to) namespaces total

  -- From the database what was spent before the earliest running pod.
  abbrev pub recorded : Option Records → BudgetScope → Time → Time → Time → fl.F → fl.F
  recorded none scope from to earliest total = total
  recorded (some db) scope from to earliest total =
      if is_zero earliest
      then recorded_in db from to scope.namespaces scope.teams total
      else if ltb_ℤ from earliest
      then recorded_in db from earliest scope.namespaces scope.teams total
      else total

  abbrev pub add_live : fl.F → Option fl.F → fl.F
  add_live total none = total
  add_live total (some cost) = fl.add total cost

  unfoldable pub live : (String → String → Option fl.F) → List Pod → fl.F → fl.F
  live pod_cost [] total = total
  live pod_cost (p ∷ ps) total = live pod_cost ps (add_live total (pod_cost p.namespace p.name))

  unfoldable pub calculate_scope_spend :
      PodsApi
      → Option Records
      → (String → String → Option fl.F)
      → BudgetScope
      → Time
      → Time
      → Result fl.F
  unfolding get_scope_pods add_recorded live earliest_start
  calculate_scope_spend api db pod_cost scope from to = do
    pods ← get_scope_pods api scope
    ok (
        live pod_cost pods
          (recorded db scope from to (earliest_start zero_time pods) (fl.of_int (pos 0))))
