-- ===== src/Budget/Status.antt =====
-- `updateBudgetStatus` and `checkAlerts`.
use gpuautoscaler.Prelude.{
  ℤ, pos, Bool, true, false, Option, none, some, List, [], ◌∷◌, ◌++◌, map, if◌then◌else◌, ltb_ℤ,
  String, str_eq,
}
use gpuautoscaler.Prelude.Float.{Float64}
use gpuautoscaler.Prelude.Results.{Result, ok, ◌>>=◌, wrap_error}
use gpuautoscaler.Prelude.Time.{Time, Duration, time_sub}
use gpuautoscaler.Budget.Model.{
  BudgetAlert, AlertFired, CostBreakdown, CostBudgetStatus, CostBudget, AlertMessage,
}
use gpuautoscaler.Budget.Spend.{PodsApi, Records, calculate_scope_spend, is_present}
use gpuautoscaler.Cost.Tracker.{PodCost, CostTracker, get_pod_cost}
use gpuautoscaler.Budget.Breakdown.{build_cost_breakdown}

module _ (fl : Float64) where
  -- What the package `time` answers: the first moment of a moment's month, the moment a month later, and
  -- a duration in hours.
  pub record Calendar : Type 0 where
    pub month_of : Time → Time
    pub next_month : Time → Time
    pub hours : Duration → fl.F

  abbrev pub start_of : Calendar → Time → Option Time → Time
  start_of c now none = c.month_of now
  start_of c now (some t) = t

  unfoldable pub percentage : fl.F → fl.F → fl.F
  percentage spend limit =
      if fl.lt (fl.of_int (pos 0)) limit
      then fl.mul (fl.div spend limit) (fl.of_int (pos 100))
      else fl.of_int (pos 0)

  unfoldable pub status_of : fl.F → String
  status_of used =
      if fl.le (fl.of_int (pos 100)) used
      then "exceeded"
      else if fl.le (fl.of_int (pos 80)) used
      then "warning"
      else "ok"

  abbrev pub projected : fl.F → fl.F → fl.F → fl.F
  projected spend elapsed in_month =
      if fl.lt (fl.of_int (pos 0)) elapsed
      then fl.mul (fl.div spend elapsed) in_month
      else fl.of_int (pos 0)

  abbrev pub at_least_zero : ℤ → ℤ
  at_least_zero days = if ltb_ℤ days (pos 0) then pos 0 else days

  unfoldable pub exceeded_since_of : String → Time → Option Time → Option Time
  exceeded_since_of status now since =
      if str_eq status "exceeded" then (if is_present since then since else some now) else none

  -- The status from the spend and the breakdown; `time.Now` is read once.
  unfoldable pub next_status :
      Calendar → Time → fl.F → CostBreakdown fl → CostBudget fl → CostBudgetStatus fl
  unfolding percentage status_of exceeded_since_of time_sub
  next_status c now spend breakdown b =
      let from = start_of c now b.spec.start_date in
      let to = c.next_month from in
      let used = percentage spend b.spec.monthly_limit in
      let day = fl.of_int (pos 24) in
      record {
        current_spend = spend;
        percentage_used = used;
        budget_status = status_of used;
        projected_monthly_spend =
            projected spend (fl.div (c.hours (time_sub now from)) day)
              (fl.div (c.hours (time_sub to from)) day);
        days_remaining = at_least_zero (fl.trunc (fl.div (c.hours (time_sub to now)) day));
        alerts_fired = b.status.alerts_fired;
        enforcement_active = b.status.enforcement_active;
        exceeded_since = exceeded_since_of (status_of used) now b.status.exceeded_since;
        last_updated = now;
        breakdown = breakdown;
      }

  abbrev pub total_of : Option (PodCost fl) → Option fl.F
  total_of none = none
  total_of (some c) = some c.total_cost

  -- The cost of a pod by its namespace and name, as the tracker has it.
  abbrev pub live_cost : CostTracker fl → String → String → Option fl.F
  live_cost t namespace name = total_of (get_pod_cost fl t namespace name)

  -- The lists of pods for the spend and for the breakdown get the same answers.
  unfoldable pub update_budget_status :
      PodsApi
      → Option (Records fl)
      → CostTracker fl
      → Calendar
      → Time
      → CostBudget fl
      → Result (CostBudget fl)
  unfolding calculate_scope_spend next_status get_pod_cost build_cost_breakdown
  update_budget_status api db t c now b = do
    spend ← wrap_error "failed to calculate scope spend" (
        calculate_scope_spend fl api db (live_cost t) b.spec.scope
          (start_of c now b.spec.start_date) now)
    ok (record b {
      status = next_status c now spend (build_cost_breakdown fl api t b.spec.scope) b;
    })

  -- An entry for the alert that nobody has acknowledged.
  abbrev pub is_open : String → AlertFired fl → Bool
  is_open name fired =
      if str_eq fired.alert_name name then (if fired.acknowledged then false else true) else false

  unfoldable pub already_fired : String → List (AlertFired fl) → Bool
  already_fired name [] = false
  already_fired name (f ∷ fs) =
      let rest = already_fired name fs in if is_open name f then true else rest

  abbrev pub fire : Time → BudgetAlert fl → AlertFired fl
  fire now a = record {
    alert_name = a.name;
    timestamp = now;
    threshold = a.threshold_percent;
    acknowledged = false;
  }

  -- The messages of an alert, one to each channel. A failure to send is only logged.
  abbrev pub messages : CostBudget fl → BudgetAlert fl → List (String × AlertMessage fl)
  messages b a =
      map
        (λ channel. (
          channel,
          record {
            budget_name = b.name;
            alert_name = a.name;
            severity = a.severity;
            current_spend = b.status.current_spend;
            monthly_limit = b.spec.monthly_limit;
            percentage_used = b.status.percentage_used;
            threshold = a.threshold_percent;
          },
        ))
        a.channels

  -- Whether the alert fires.
  abbrev pub fires : CostBudget fl → List (AlertFired fl) → BudgetAlert fl → Bool
  fires b fired a =
      if fl.le a.threshold_percent b.status.percentage_used
      then (if already_fired a.name fired then false else true)
      else false

  -- The loop of `checkAlerts`: the entries behind it and the messages sent.
  unfoldable pub check_alerts_loop :
      Time
      → CostBudget fl
      → List (BudgetAlert fl)
      → List (AlertFired fl)
      → List (AlertFired fl) × List (String × AlertMessage fl)
  unfolding already_fired
  check_alerts_loop now b [] fired = (fired, [])
  check_alerts_loop now b (a ∷ as') fired =
      let late = check_alerts_loop now b as' fired in
      let more = check_alerts_loop now b as' (fired ++ fire now a ∷ []) in
      if fires b fired a then (more.0, messages b a ++ more.1) else late

  -- Without an alert manager no message is sent.
  unfoldable pub check_alerts :
      Bool → Time → CostBudget fl → CostBudget fl × List (String × AlertMessage fl)
  unfolding check_alerts_loop
  check_alerts alerter now b =
      let (fired, sent) = check_alerts_loop now b b.spec.alerts b.status.alerts_fired in
      (record b { status = record b.status { alerts_fired = fired } }, if alerter then sent else [])
