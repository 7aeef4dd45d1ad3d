-- ===== src/Cost/Tracker.antt =====
-- `CostTracker`: the costs of the running pods, and what is read off them. The gauge of a pod, which
-- repeats its entry of the cache, is left out; the clock is read once in an update.
use gpuautoscaler.Prelude.{
  ℕ, suc, ◌*◌, ◌%◌, ℤ, pos, negsuc, quot_ℤ, sub_ℕ, eqb_ℤ, Bool, true, Option, none, some, String,
  str_eq, List, [], ◌∷◌, ◌++◌, GoMap, map_get, Entries, Entry, lookup, insert, keep, if◌then◌else◌,
}
use gpuautoscaler.Prelude.Float.{Float64}
use gpuautoscaler.Prelude.Sums.{raise}
use gpuautoscaler.Prelude.Keys.{slash}
use gpuautoscaler.Prelude.Results.{Result, Error, ok, err, message, wrapped, wrap_error}
use gpuautoscaler.Prelude.Time.{Time, Duration, time_sub, is_zero, minute}
use gpuautoscaler.Kube.{Pod, Node, text_at}
use gpuautoscaler.Budget.Spend.{costs_gpu, is_present}
use gpuautoscaler.Cost.Pricing.{GpuPricingRequest, PricingClient, get_gpu_pricing}
use gpuautoscaler.Cost.Labels.{
  get_gpu_count, get_gpu_type, get_capacity_type, get_sharing_mode, get_sharing_factor, get_region,
  get_zone,
}

-- Go's `a % n` of an `int`: it has the sign of a.
abbrev rem_ℤ : ℤ → ℕ → ℤ
rem_ℤ (pos a) n = pos (a % n)
rem_ℤ (negsuc a) n = sub_ℕ 0 (suc a % n)

abbrev pub pod_key : Pod → String
pod_key pod = slash pod.namespace pod.name

abbrev start_or : Option Time → Time → Time
start_or none now = now
start_or (some t) now = if is_zero t then now else t

module _ (fl : Float64) where
  -- `d.Hours()`
  abbrev pub hours : Duration → fl.F
  hours d =
      let hour = 60 * minute in
      fl.add (fl.of_int (quot_ℤ d hour)) (fl.div (fl.of_int (rem_ℤ d hour)) (fl.of_int (pos hour)))

  pub record PodCost : Type 0 where
    pub pod_name : String
    pub namespace : String
    pub node : String
    pub gpu_type : String
    pub gpu_count : ℤ
    pub capacity_type : String
    pub sharing_mode : String
    pub start_time : Time
    pub hourly_rate : fl.F
    pub total_cost : fl.F
    pub last_updated : Time
    pub labels : GoMap String
    pub experiment_id : String
    pub team : String
    pub project : String
    pub cost_center : String

  pub record CostTracker : Type 0 where
    pub pod_cost_cache : Entries PodCost
    pub pricing_client : PricingClient fl
    pub hourly_cost_gauge : fl.F
    pub total_cost_gauge : fl.F
    pub inserted : List PodCost

  -- The cost of a cached pod goes on at its rate.
  abbrev pub continued : PodCost → Time → PodCost
  continued c now = record c {
    total_cost = fl.add c.total_cost (fl.mul c.hourly_rate (hours (time_sub now c.last_updated)));
    last_updated = now;
  }

  -- The cost of a new pod on its node.
  abbrev pub first_cost : Pod → Node → ℤ → fl.F → Time → PodCost
  first_cost pod node count price now =
      let mode = get_sharing_mode pod in
      let whole = fl.mul price (fl.of_int count) in
      let rate =
        if str_eq mode "exclusive" then whole else fl.mul whole (get_sharing_factor fl pod mode) in
      let start = start_or pod.start_time now in
      record {
        pod_name = pod.name;
        namespace = pod.namespace;
        node = pod.node_name;
        gpu_type = (if str_eq (get_gpu_type node) "" then "unknown" else get_gpu_type node);
        gpu_count = count;
        capacity_type = get_capacity_type node;
        sharing_mode = mode;
        start_time = start;
        hourly_rate = rate;
        total_cost = fl.mul rate (hours (time_sub now start));
        last_updated = now;
        labels = pod.labels;
        experiment_id = text_at "experiment-id" pod.labels;
        team = text_at "team" pod.labels;
        project = text_at "project" pod.labels;
        cost_center = text_at "cost-center" pod.labels;
      }

  abbrev pub price_request : Node → GpuPricingRequest
  price_request node = record {
    gpu_type = (if str_eq (get_gpu_type node) "" then "unknown" else get_gpu_type node);
    capacity_type = get_capacity_type node;
    region = get_region node;
    zone = get_zone node;
  }

  abbrev pub priced_on : Result Node → Pod → ℤ → Time → CostTracker → CostTracker × Result PodCost
  priced_on (err e) pod count now t = (t, err (wrapped "failed to get node" e))
  priced_on (ok node) pod count now t =
      let (client, pricing) = get_gpu_pricing fl t.pricing_client (price_request node) now in
      (
        record t { pricing_client = client },
        ok (first_cost pod node count pricing.price_per_gpu_hour now),
      )

  abbrev pub cost_from :
      (String → Result Node)
      → Time
      → Pod
      → Option PodCost
      → CostTracker
      → CostTracker × Result PodCost
  cost_from get_node now pod (some c) t = (
    record t { pod_cost_cache = insert t.pod_cost_cache (pod_key pod) (continued c now) },
    ok (continued c now),
  )
  cost_from get_node now pod none t =
      let count = get_gpu_count pod.containers (pos 0) in
      if eqb_ℤ count (pos 0)
      then (t, err (message "pod has no GPUs"))
      else priced_on (get_node pod.node_name) pod count now t

  unfoldable pub calculate_pod_cost :
      (String → Result Node) → Time → Pod → CostTracker → CostTracker × Result PodCost
  unfolding lookup insert get_gpu_count get_gpu_type get_capacity_type get_sharing_mode
      get_sharing_factor get_region get_zone get_gpu_pricing time_sub
  calculate_pod_cost get_node now pod t =
      cost_from get_node now pod (lookup t.pod_cost_cache (pod_key pod)) t

  -- The variables of the loop in `updateCosts`.
  pub record Totals : Type 0 where
    pub tracker : CostTracker
    pub hourly : fl.F
    pub total : fl.F
    pub active : Entries Bool

  -- What is done with the cost of a pod; with a database, each is inserted, and an error is logged.
  abbrev pub added : Bool → Pod → Totals → CostTracker × Result PodCost → Totals
  added has_db pod s (t, err e) = record s {
    tracker = t;
    active = insert s.active (pod_key pod) true;
  }
  added has_db pod s (t, ok c) = record {
    tracker = record t {
      pod_cost_cache = insert t.pod_cost_cache (pod_key pod) c;
      inserted = (if has_db then t.inserted ++ c ∷ [] else t.inserted);
    };
    hourly = fl.add s.hourly c.hourly_rate;
    total = fl.add s.total c.total_cost;
    active = insert s.active (pod_key pod) true;
  }

  unfoldable pub cost_pods : Bool → (String → Result Node) → Time → List Pod → Totals → Totals
  unfolding calculate_pod_cost costs_gpu insert
  cost_pods has_db get_node now [] s = s
  cost_pods has_db get_node now (p ∷ ps) s =
      let costed = added has_db p s (calculate_pod_cost get_node now p s.tracker) in
      cost_pods has_db get_node now ps (if costs_gpu p.containers then costed else s)

  -- The entries whose pods are active, and the gauges.
  abbrev pub cleaned : Totals → CostTracker
  cleaned s = record s.tracker {
    pod_cost_cache =
        keep (λ (e : Entry PodCost). is_present (lookup s.active e.key)) s.tracker.pod_cost_cache;
    hourly_cost_gauge = s.hourly;
    total_cost_gauge = s.total;
  }

  abbrev pub costed :
      Bool
      → (String → Result Node)
      → Time
      → Result (List Pod)
      → CostTracker
      → CostTracker × Option Error
  costed has_db get_node now (err e) t = (t, some e)
  costed has_db get_node now (ok pods) t = (
    cleaned (
        cost_pods has_db get_node now pods (record {
          tracker = t;
          hourly = fl.of_int (pos 0);
          total = fl.of_int (pos 0);
          active = [];
        })),
    none,
  )

  -- `updateCosts` with the list of the running pods.
  unfoldable pub update_costs :
      Bool
      → (String → Result Node)
      → Time
      → Result (List Pod)
      → CostTracker
      → CostTracker × Option Error
  unfolding cost_pods lookup
  update_costs has_db get_node now listed t =
      costed has_db get_node now (wrap_error "failed to list pods" listed) t

  unfoldable pub get_pod_cost : CostTracker → String → String → Option PodCost
  unfolding lookup
  get_pod_cost t namespace name = lookup t.pod_cost_cache (slash namespace name)

  -- `Range` visits the entries in no fixed order; the model takes that of the list.
  unfoldable pub sum_over : (PodCost → fl.F) → Entries PodCost → fl.F → fl.F
  sum_over f [] total = total
  sum_over f (e ∷ es) total = sum_over f es (fl.add total (f e.value))

  unfoldable pub get_total_cost : CostTracker → fl.F
  unfolding sum_over
  get_total_cost t = sum_over (λ c. c.total_cost) t.pod_cost_cache (fl.of_int (pos 0))

  unfoldable pub get_hourly_rate : CostTracker → fl.F
  unfolding sum_over
  get_hourly_rate t = sum_over (λ c. c.hourly_rate) t.pod_cost_cache (fl.of_int (pos 0))

  -- `costs[key] += cost`, where there is a key.
  abbrev raise_some : Option String → fl.F → Entries fl.F → Entries fl.F
  raise_some none cost costs = costs
  raise_some (some k) cost costs = raise fl k cost costs

  unfoldable pub group_costs :
      (PodCost → Option String) → Entries PodCost → Entries fl.F → Entries fl.F
  unfolding lookup insert
  group_costs key [] costs = costs
  group_costs key (e ∷ es) costs =
      group_costs key es (raise_some (key e.value) e.value.total_cost costs)

  unfoldable pub get_cost_by_namespace : CostTracker → Entries fl.F
  unfolding group_costs
  get_cost_by_namespace t = group_costs (λ c. some c.namespace) t.pod_cost_cache []

  unfoldable pub get_cost_by_label : CostTracker → String → Entries fl.F
  unfolding group_costs lookup
  get_cost_by_label t label = group_costs (λ c. map_get label c.labels) t.pod_cost_cache []
