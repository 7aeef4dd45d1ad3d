-- ===== src/Attribution/Status.antt =====
-- `updateAttributionStatus` and what it calls. The clock is read once, the starts of the day and the
-- month and the names of days come from the calendar of the process, and a loop over a Go map takes the
-- order of its entries in the model.
use gpuautoscaler.Prelude.{
  ℕ, ◌+◌, ◌*◌, ℤ, pos, ◌+ℤ◌, add64, sub_ℕ, Option, none, some, String, str_eq, List, [], ◌∷◌,
  Entries, lookup, insert, if◌then◌else◌,
}
use gpuautoscaler.Prelude.Float.{Float64}
use gpuautoscaler.Prelude.Sums.{raise}
use gpuautoscaler.Prelude.Results.{Result, ok, err, wrap_error, ◌>>=◌}
use gpuautoscaler.Prelude.Time.{Time, time_sub, minute}
use gpuautoscaler.Kube.{Pod}
use gpuautoscaler.Budget.Spend.{PodsApi}
use gpuautoscaler.Cost.Tracker.{PodCost, CostTracker, get_pod_cost, hours}
use gpuautoscaler.Attribution.Select.{CostAttributionSpec, get_matching_pods}
use gpuautoscaler.Attribution.Savings.{savings_or_none, calculate_savings}
use gpuautoscaler.Attribution.Model.{
  zero_cost, count_down, PodCostInfo, HourlyCost, DailyCost, CostDataPoint, DetailedBreakdown,
  CostAttributionStatus, CostDb, Calendar,
}

-- `now.Add(-n * time.Hour)`
abbrev pub hours_before : ℕ → Time → Time
hours_before n t = t +ℤ sub_ℕ 0 (n * (60 * minute))

module _ (fl : Float64) where
  -- The variables of the loop over the pods.
  pub record Sums : Type 0 where
    pub total_cost : fl.F
    pub hourly_rate : fl.F
    pub active_pods : ℕ
    pub active_gpus : ℤ
    pub gpu_hours : fl.F
    pub pod_costs : Entries (PodCostInfo fl)

  abbrev pub no_sums : Sums
  no_sums = record {
    total_cost = zero_cost fl;
    hourly_rate = zero_cost fl;
    active_pods = 0;
    active_gpus = pos 0;
    gpu_hours = zero_cost fl;
    pod_costs = [];
  }

  abbrev pub info_of : String → PodCost fl → PodCostInfo fl
  info_of name c = record {
    pod_name = name;
    gpu_type = c.gpu_type;
    gpu_count = c.gpu_count;
    start_time = c.start_time;
    cost = c.total_cost;
    hourly_rate = c.hourly_rate;
    capacity_type = c.capacity_type;
    sharing_mode = c.sharing_mode;
    node = c.node;
  }

  abbrev pub add_cost : Time → String → Option (PodCost fl) → Sums → Sums
  add_cost now name none s = s
  add_cost now name (some c) s = record {
    total_cost = fl.add s.total_cost c.total_cost;
    hourly_rate = fl.add s.hourly_rate c.hourly_rate;
    active_pods = s.active_pods + 1;
    active_gpus = add64 s.active_gpus c.gpu_count;
    gpu_hours =
        fl.add s.gpu_hours (fl.mul (hours fl (time_sub now c.start_time)) (fl.of_int c.gpu_count));
    pod_costs = insert s.pod_costs name (info_of name c);
  }

  unfoldable pub sum_pods : CostTracker fl → Time → List Pod → Sums → Sums
  unfolding get_pod_cost add64 time_sub insert
  sum_pods t now [] s = s
  sum_pods t now (p ∷ ps) s =
      sum_pods t now ps (add_cost now p.name (get_pod_cost fl t p.namespace p.name) s)

  -- `cost, _ = query`: on an error the query's value is 0.
  abbrev pub value_of : Result fl.F → fl.F
  value_of (ok cost) = cost
  value_of (err e) = zero_cost fl

  -- The day's or the month's cost.
  abbrev pub cost_since : Option (CostDb fl) → CostAttributionSpec → Time → Time → fl.F → fl.F
  cost_since none spec from now total = total
  cost_since (some db) spec from now total =
      if str_eq spec.namespace ""
      then (if str_eq spec.team "" then total else value_of (db.records.by_team spec.team from now))
      else value_of (db.records.by_namespace spec.namespace from now)

  unfoldable pub group_by :
      (PodCostInfo fl → String) → Entries (PodCostInfo fl) → Entries fl.F → Entries fl.F
  unfolding insert lookup
  group_by key [] costs = costs
  group_by key (e ∷ es) costs = group_by key es (raise fl (key e.value) e.value.cost costs)

  abbrev pub hour_at : Time → ℕ → HourlyCost fl
  hour_at now i = record {
    timestamp = hours_before i now;
    cost = zero_cost fl;
    gpu_hours = zero_cost fl;
  }

  abbrev pub day_at : Calendar fl → Time → ℕ → DailyCost fl
  day_at calendar now i = record {
    date = calendar.date_of (calendar.days_before i now);
    cost = zero_cost fl;
    gpu_hours = zero_cost fl;
    peak_gpus = pos 0;
  }

  abbrev pub with_db {ℓ} : {A : Type ℓ} → Option (CostDb fl) → List A → List A
  with_db none xs = []
  with_db (some db) xs = xs

  unfoldable pub build_detailed_breakdown :
      Option (CostDb fl) → Calendar fl → Time → Entries (PodCostInfo fl) → DetailedBreakdown fl
  unfolding group_by count_down ◌+ℤ◌
  build_detailed_breakdown db calendar now pod_costs = record {
    by_pod = pod_costs;
    by_gpu_type = group_by (λ (i : PodCostInfo fl). i.gpu_type) pod_costs [];
    by_capacity_type = group_by (λ (i : PodCostInfo fl). i.capacity_type) pod_costs [];
    by_node = group_by (λ (i : PodCostInfo fl). i.node) pod_costs [];
    by_hour = with_db db (count_down 24 (hour_at now));
    by_day = with_db db (count_down 30 (day_at calendar now));
  }

  unfoldable pub get_historical_data : Option (CostDb fl) → Time → List (CostDataPoint fl)
  unfolding count_down ◌+ℤ◌
  get_historical_data db now = with_db db (
      count_down 169 λ i. record {
        timestamp = hours_before i now;
        cost = zero_cost fl;
        rate = zero_cost fl;
        gpus = pos 0;
        pods = pos 0;
      })

  abbrev pub status_of :
      Option (CostDb fl)
      → Calendar fl
      → Time
      → CostAttributionSpec
      → Sums
      → CostAttributionStatus fl
  status_of db calendar now spec s = record {
    total_cost = s.total_cost;
    daily_cost = cost_since db spec (calendar.start_of_day now) now s.total_cost;
    monthly_cost = cost_since db spec (calendar.start_of_month now) now s.total_cost;
    hourly_cost = s.hourly_rate;
    active_pods = s.active_pods;
    active_gpus = s.active_gpus;
    gpu_hours = s.gpu_hours;
    cost_per_gpu_hour =
        (if fl.lt (zero_cost fl) s.gpu_hours
          then fl.div s.total_cost s.gpu_hours
          else (zero_cost fl));
    last_updated = now;
    detailed_breakdown = build_detailed_breakdown db calendar now s.pod_costs;
    historical_data = get_historical_data db now;
    savings = savings_or_none fl (calculate_savings fl db calendar now s.total_cost);
  }

  unfoldable pub update_attribution_status :
      PodsApi
      → CostTracker fl
      → Option (CostDb fl)
      → Calendar fl
      → Time
      → CostAttributionSpec
      → Result (CostAttributionStatus fl)
  unfolding get_matching_pods sum_pods build_detailed_breakdown get_historical_data
      calculate_savings
  update_attribution_status api t db calendar now spec = do
    pods ← wrap_error "failed to get matching pods" (get_matching_pods api spec)
    ok (status_of db calendar now spec (sum_pods t now pods no_sums))
