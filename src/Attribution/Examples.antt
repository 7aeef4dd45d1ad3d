-- ===== src/Attribution/Examples.antt =====
-- Tests of pkg/cost/attribution_controller.go, and the theorems about it at two pods of one name.
use gpuautoscaler.Prelude.{
  inl, inr, ◌≤◌, ◌≡◌, refl, pos, ℤ, false, none, some, String, str_eq, List, [], ◌∷◌, All, Any,
  length, lookup, entry, if◌then◌else◌,
}
use gpuautoscaler.Prelude.Fixed.{fixed}
use gpuautoscaler.Prelude.Results.{ok, message}
use gpuautoscaler.Kube.{Pod, Node, running, gpu_resource}
use gpuautoscaler.Budget.Spend.{PodsApi, costs_gpu, any_mig_prefix}
use gpuautoscaler.Cost.Labels.{get_gpu_count}
use gpuautoscaler.Cost.Present.{IsCountable}
use gpuautoscaler.Attribution.Counted.{update_attribution_status-counts}
use gpuautoscaler.Cost.Pricing.{new_pricing_client}
use gpuautoscaler.Cost.Tracker.{PodCost, CostTracker, update_costs}
use gpuautoscaler.Attribution.Select.{CostAttributionSpec, get_matching_pods}
use gpuautoscaler.Attribution.Model.{Calendar, CostAttributionStatus, zero_cost}
use gpuautoscaler.Attribution.Status.{update_attribution_status}
use gpuautoscaler.Attribution.Reconcile.{found, Outside, reconcile, requeue_or_fail}
use gpuautoscaler.Attribution.Matching.{IsMatch, get_matching_pods-IsMatch}
use gpuautoscaler.Attribution.Names.{
  costed, sum_costs, last_named, update_attribution_status-by_pod,
}
use gpuautoscaler.Attribution.Reported.{without_db, failing, SamePods, reconcile-failing}

abbrev pod_in : String → Pod
pod_in namespace = record {
  name = "train";
  namespace = namespace;
  node_name = "a";
  phase = running;
  labels = some (entry "team" "vision" ∷ []);
  annotations = none;
  containers = record { requests = some (entry gpu_resource (pos 1) ∷ []); limits = none } ∷ [];
  priority = none;
  created = pos 0;
  start_time = some (pos 1);
  node_selector = none;
  tolerations = [];
}

abbrev two_pods : List Pod
two_pods = pod_in "ml" ∷ pod_in "dev" ∷ []

abbrev listing : PodsApi
listing namespace labels = ok two_pods

abbrev vision : CostAttributionSpec
vision = record {
  namespace = "";
  labels = none;
  experiment_id = "";
  team = "vision";
  project = "";
  cost_center = "";
  tags = none;
}

abbrev cost_in : String → ℤ → PodCost fixed
cost_in namespace total = record {
  pod_name = "train";
  namespace = namespace;
  node = "a";
  gpu_type = "nvidia-l4";
  gpu_count = pos 1;
  capacity_type = "spot";
  sharing_mode = "exclusive";
  start_time = pos 0;
  hourly_rate = fixed.of_int (pos 1);
  total_cost = fixed.of_int total;
  last_updated = pos 0;
  labels = none;
  experiment_id = "";
  team = "vision";
  project = "";
  cost_center = "";
}

abbrev tracker : CostTracker fixed
tracker = record {
  pod_cost_cache =
      entry "ml/train" (cost_in "ml" (pos 5)) ∷ entry "dev/train" (cost_in "dev" (pos 2)) ∷ [];
  pricing_client = new_pricing_client fixed "aws" "us-east-1";
  hourly_cost_gauge = fixed.lit 0 0;
  total_cost_gauge = fixed.lit 0 0;
  inserted = [];
}

abbrev calendar : Calendar fixed
calendar = record {
  start_of_day = λ t. pos 0;
  start_of_month = λ t. pos 0;
  days_before = λ n t. t;
  date_of = λ t. "";
}

both_match : get_matching_pods listing vision ≡ ok two_pods
unfolding get_matching_pods lookup
both_match = refl

get_matching_pods-IsMatch_example :
    (pods : List Pod) × (get_matching_pods listing vision ≡ ok pods)
    × All (IsMatch vision) pods
    × All (λ p. Any (λ q. q ≡ p) two_pods) pods
    × All (λ p. IsMatch vision p → Any (λ q. q ≡ p) pods) two_pods
get_matching_pods-IsMatch_example = get_matching_pods-IsMatch listing vision two_pods refl

update_attribution_status-by_pod_example :
    (status : CostAttributionStatus fixed) × (update_attribution_status fixed listing tracker none
        calendar
        (pos 9)
        vision
      ≡ ok status)
    × (status.total_cost ≡ sum_costs fixed (costed fixed tracker two_pods) (fixed.of_int (pos 0)))
    × (status.active_pods ≡ length (costed fixed tracker two_pods))
    × ((q : String)
        → lookup status.detailed_breakdown.by_pod q
          ≡ last_named fixed q (costed fixed tracker two_pods) none)
    × (length status.detailed_breakdown.by_pod ≤ status.active_pods)
update_attribution_status-by_pod_example =
    update_attribution_status-by_pod fixed listing tracker none calendar (pos 9) vision two_pods
      both_match

abbrev outside : Outside fixed
outside = record {
  pods_api = listing;
  tracker = tracker;
  db = some (failing fixed (message "down"));
  calendar = calendar;
  now = pos 9;
  update_answer = none;
}

reconcile-failing_example :
    (a b : CostAttributionStatus fixed) × (reconcile fixed outside (found vision)
      ≡ record { requeue_after = requeue_or_fail fixed none; failure = none; updated = some a })
    × (reconcile fixed (without_db fixed outside) (found vision)
        ≡ record { requeue_after = requeue_or_fail fixed none; failure = none; updated = some b })
    × SamePods fixed a b
    × (b.daily_cost ≡ b.total_cost)
    × (b.monthly_cost ≡ b.total_cost)
    × (a.daily_cost ≡ a.monthly_cost)
    × (a.daily_cost ≡ (
        if str_eq vision.namespace ""
        then (if str_eq vision.team "" then a.total_cost else zero_cost fixed)
        else zero_cost fixed))
reconcile-failing_example =
    reconcile-failing fixed outside (message "down") vision two_pods refl both_match

abbrev node_of : String → Node
node_of name = record {
  name = name;
  labels = none;
  annotations = none;
  capacity = none;
  unschedulable = false;
}

two_pods-IsCountable : All IsCountable two_pods
unfolding costs_gpu any_mig_prefix get_gpu_count lookup
two_pods-IsCountable =
    (record { uses = refl; counts = refl }, (record { uses = refl; counts = refl }, tt))

abbrev updated : CostTracker fixed
updated = (update_costs fixed false (λ name. ok (node_of name)) (pos 5) (ok two_pods) tracker).0

update_attribution_status-counts_example :
    (status : CostAttributionStatus fixed) × (update_attribution_status fixed listing updated none
        calendar
        (pos 9)
        vision
      ≡ ok status)
    × (status.active_pods ≡ length two_pods)
update_attribution_status-counts_example =
    update_attribution_status-counts fixed false (λ name. ok (node_of name))
      (λ name. (node_of name, refl)) (pos 5) (pos 9) two_pods tracker listing none calendar vision
      two_pods both_match two_pods-IsCountable (inl refl, (inr (inl refl), tt))
