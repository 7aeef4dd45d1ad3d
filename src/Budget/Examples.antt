-- ===== src/Budget/Examples.antt =====
-- Tests of pkg/cost/budget_controller.go, and its theorems at a budget.
use gpuautoscaler.Prelude.{
  entry, lookup, ◌≡◌, refl, pos, true, false, none, some, List, [], ◌∷◌, All, String,
}
use gpuautoscaler.Prelude.Fixed.{fixed}
use gpuautoscaler.Prelude.Results.{err, message, ok}
use gpuautoscaler.Prelude.Time.{Time}
use gpuautoscaler.Budget.Model.{
  BudgetScope, BudgetAlert, ThrottleConfig, BudgetEnforcement, NodePoolSpec, AutoscalingPolicy,
  CostBreakdown, CostBudget,
}
use gpuautoscaler.Budget.Status.{
  Calendar, check_alerts, next_status, percentage, status_of, exceeded_since_of,
}
use gpuautoscaler.Budget.Enforce.{throttle_policies, enforce_budget}
use gpuautoscaler.Kube.{Pod, running}
use gpuautoscaler.Budget.Spend.{
  calculate_scope_spend, get_scope_pods, list_namespaces, is_in_scope, costs_gpu, any_mig_prefix,
  one_of, earliest_start, add_recorded, live,
}
use gpuautoscaler.Cost.Pricing.{new_pricing_client}
use gpuautoscaler.Cost.Tracker.{CostTracker, get_pod_cost}
use gpuautoscaler.Budget.Reconcile.{Outside, found, persisted_of, reconcile}
use gpuautoscaler.Budget.Monitoring.{IsMonitored, reconcile-IsMonitored}
use gpuautoscaler.Budget.Streak.{updates, IsStreak, updates-IsStreak}
use gpuautoscaler.Budget.Alerts.{IsAlerted, check_alerts-IsAlerted}
use gpuautoscaler.Budget.Enforcement.{IsEnforced, enforce_budget-IsEnforced}
use gpuautoscaler.Budget.Throttle.{IsUpdate, IsCovered, throttle_policies-IsUpdate}

abbrev calendar : Calendar fixed
calendar = record { month_of = λ t. pos 0; next_month = λ t. pos 1000; hours = λ d. fixed.of_int d }

abbrev scope : BudgetScope
scope = record { namespaces = "ml" ∷ []; labels = none; experiment_id = ""; teams = [] }

abbrev throttling : ThrottleConfig
throttling = record { max_spot_instances = some (pos 2); block_spot_creation = false }

abbrev enforcement : BudgetEnforcement
enforcement = record {
  action = "throttle";
  grace_period_minutes = pos 1;
  throttle_config = some throttling;
}

abbrev half : BudgetAlert fixed
half = record {
  name = "half";
  threshold_percent = fixed.of_int (pos 50);
  channels = "slack" ∷ [];
  severity = "warning";
}

abbrev no_parts : CostBreakdown fixed
no_parts = record {
  by_namespace = [];
  by_label = [];
  by_instance_type = [];
  spot_vs_on_demand = [];
}

abbrev budget : CostBudget fixed
budget = record {
  name = "ml";
  spec = record {
    monthly_limit = fixed.of_int (pos 200);
    scope = scope;
    alerts = half ∷ half ∷ [];
    enforcement = some enforcement;
    start_date = none;
    enabled = true;
  };
  status = record {
    current_spend = fixed.of_int (pos 240);
    percentage_used = fixed.of_int (pos 120);
    budget_status = "exceeded";
    projected_monthly_spend = fixed.of_int (pos 0);
    days_remaining = pos 3;
    alerts_fired = [];
    enforcement_active = false;
    exceeded_since = none;
    last_updated = pos 0;
    breakdown = no_parts;
  };
}

-- Exceeded, then not, then exceeded twice; the newest first.
abbrev spending : List (Time × fixed.F)
spending =
    (pos 400, fixed.of_int (pos 230))
    ∷ (pos 300, fixed.of_int (pos 210))
    ∷ (pos 200, fixed.of_int (pos 190))
    ∷ (pos 100, fixed.of_int (pos 200))
    ∷ []

since_300 :
    (updates fixed calendar (λ t. no_parts) budget spending).status.exceeded_since ≡ some (pos 300)
unfolding next_status percentage status_of exceeded_since_of
since_300 = refl

updates-IsStreak_example :
    IsStreak fixed budget spending
      (updates fixed calendar (λ t. no_parts) budget spending).status.exceeded_since
updates-IsStreak_example = updates-IsStreak fixed calendar (λ t. no_parts) budget spending refl

check_alerts-IsAlerted_example :
    let b' = (check_alerts fixed true (pos 400) budget).0 in
    IsAlerted fixed budget (half ∷ half ∷ []) [] b'.status.alerts_fired
    × (check_alerts fixed true (pos 500) b' ≡ (b', []))
check_alerts-IsAlerted_example = check_alerts-IsAlerted fixed true (pos 400) (pos 500) budget

abbrev pool : String → String → NodePoolSpec
pool name kind = record { name = name; min_size = pos 1; max_size = pos 5; capacity_type = kind }

abbrev policies : List AutoscalingPolicy
policies =
    record {
      name = "p";
      namespace = "ml";
      node_pools = pool "a" "spot" ∷ pool "b" "on-demand" ∷ [];
    }
    ∷ record { name = "q"; namespace = "web"; node_pools = pool "c" "spot" ∷ [] }
    ∷ []

enforce_budget-IsEnforced_example :
    IsEnforced fixed
      (pos 400)
      (ok policies)
      budget
      (enforce_budget fixed (pos 400) (ok policies) budget)
enforce_budget-IsEnforced_example = enforce_budget-IsEnforced fixed (pos 400) (ok policies) budget

throttle_policies-IsUpdate_example :
    All (IsUpdate throttling scope) (throttle_policies throttling scope policies)
    × All (IsCovered throttling scope (throttle_policies throttling scope policies)) policies
throttle_policies-IsUpdate_example = throttle_policies-IsUpdate throttling scope policies

abbrev trainer : Pod
trainer = record {
  name = "trainer";
  namespace = "ml";
  node_name = "";
  phase = running;
  labels = none;
  annotations = none;
  containers =
      record { requests = some (entry "nvidia.com/mig-1g.5gb" (pos 1) ∷ []); limits = none } ∷ [];
  priority = none;
  created = pos 0;
  start_time = some (pos 50);
  node_selector = none;
  tolerations = [];
}

abbrev tracker : CostTracker fixed
tracker = record {
  pod_cost_cache =
      entry "ml/trainer" (record {
        pod_name = "trainer";
        namespace = "ml";
        node = "a";
        gpu_type = "nvidia-a100";
        gpu_count = pos 1;
        capacity_type = "spot";
        sharing_mode = "mig";
        start_time = pos 50;
        hourly_rate = fixed.of_int (pos 1);
        total_cost = fixed.of_int (pos 150);
        last_updated = pos 400;
        labels = none;
        experiment_id = "";
        team = "";
        project = "";
        cost_center = "";
      })
      ∷ [];
  pricing_client = new_pricing_client fixed "aws" "us-east-1";
  hourly_cost_gauge = fixed.of_int (pos 0);
  total_cost_gauge = fixed.of_int (pos 0);
  inserted = [];
}

-- The database knows 100 from before the pod started, the tracker 150 for the pod.
abbrev outside : Outside fixed
outside = record {
  pods_api = λ namespace labels. ok (trainer ∷ []);
  db = some (record {
    by_namespace = λ name from to. ok (fixed.of_int (pos 100));
    by_team = λ name from to. err (message "no such team");
  });
  tracker = tracker;
  calendar = calendar;
  now = pos 400;
  has_alerter = true;
  policies = ok policies;
  update_answer = none;
}

-- The figures that go to the database.
reconcile_persisted :
    (reconcile fixed outside (found budget)).persisted
    ≡ some (record {
      budget_name = "ml";
      namespace = "ml";
      team = "";
      monthly_limit = fixed.of_int (pos 200);
      spend = fixed.of_int (pos 250);
      percentage_used = percentage fixed (fixed.of_int (pos 250)) (fixed.of_int (pos 200));
      status = "exceeded";
    })
unfolding reconcile percentage status_of any_mig_prefix
reconcile_persisted = refl

reconcile-IsMonitored_example :
    (b' : CostBudget fixed) × ((reconcile fixed outside (found budget)).updated ≡ some b')
    × ((reconcile fixed outside (found budget)).persisted
        ≡ persisted_of fixed outside.db outside.update_answer b')
    × IsMonitored fixed outside budget (fixed.of_int (pos 250)) b'
unfolding calculate_scope_spend get_scope_pods list_namespaces is_in_scope costs_gpu any_mig_prefix
    one_of earliest_start add_recorded live lookup get_pod_cost
reconcile-IsMonitored_example =
    reconcile-IsMonitored fixed outside budget (fixed.of_int (pos 250)) refl refl
