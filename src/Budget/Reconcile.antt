-- ===== src/Budget/Reconcile.antt =====
-- `Reconcile` of the budget controller.
use gpuautoscaler.Prelude.{◌*◌, pos, Bool, Option, none, some, List, [], ◌∷◌, if◌then◌else◌, String}
use gpuautoscaler.Prelude.Float.{Float64}
use gpuautoscaler.Prelude.Results.{Error, Result, ok, err}
use gpuautoscaler.Prelude.Time.{Time, Duration, minute}
use gpuautoscaler.Budget.Model.{AutoscalingPolicy, CostBudget, AlertMessage}
use gpuautoscaler.Budget.Spend.{PodsApi, Records}
use gpuautoscaler.Cost.Tracker.{CostTracker}
use gpuautoscaler.Budget.Status.{Calendar, update_budget_status, check_alerts}
use gpuautoscaler.Budget.Enforce.{enforce_budget}

module _ (fl : Float64) where
  -- What `Get` answers.
  pub data Fetched : Type 0 where
    found : CostBudget fl → Fetched
    not_found : Fetched
    failed : Error → Fetched

  -- The rest of what the outside answers.
  pub record Outside : Type 0 where
    pub pods_api : PodsApi
    pub db : Option (Records fl)
    pub tracker : CostTracker fl
    pub calendar : Calendar fl
    pub now : Time
    pub has_alerter : Bool
    pub policies : Result (List AutoscalingPolicy)
    pub update_answer : Option Error

  -- What `UpdateBudgetTracking` is called with.
  pub record Tracking : Type 0 where
    pub budget_name : String
    pub namespace : String
    pub team : String
    pub monthly_limit : fl.F
    pub spend : fl.F
    pub percentage_used : fl.F
    pub status : String

  -- `getFirstNamespace` and `getFirstTeam`
  abbrev pub first_or_empty : List String → String
  first_or_empty [] = ""
  first_or_empty (x ∷ xs) = x

  abbrev pub tracking_of : CostBudget fl → Tracking
  tracking_of b = record {
    budget_name = b.name;
    namespace = first_or_empty b.spec.scope.namespaces;
    team = first_or_empty b.spec.scope.teams;
    monthly_limit = b.spec.monthly_limit;
    spend = b.status.current_spend;
    percentage_used = b.status.percentage_used;
    status = b.status.budget_status;
  }

  -- The figures go to the database, if there is one, behind an update that succeeds; its answer is only
  -- logged.
  abbrev pub persisted_of : Option (Records fl) → Option Error → CostBudget fl → Option Tracking
  persisted_of none answer b = none
  persisted_of (some db) (some e) b = none
  persisted_of (some db) none b = some (tracking_of b)

  -- What a reconciliation does: when to be called again (0: not), the error, the budget whose status is
  -- given to `Update`, the policies updated, the messages sent and the figures given to the database.
  pub record Reconciled : Type 0 where
    pub requeue_after : Duration
    pub failure : Option Error
    pub updated : Option (CostBudget fl)
    pub policies : List AutoscalingPolicy
    pub sent : List (String × AlertMessage fl)
    pub persisted : Option Tracking

  abbrev requeue_or_fail : Option Error → Duration
  requeue_or_fail none = pos minute
  requeue_or_fail (some e) = pos 0

  -- The calls behind `updateBudgetStatus`. An error of `enforceBudget` is only logged.
  unfoldable pub after_status : Outside → CostBudget fl → Reconciled
  unfolding check_alerts enforce_budget
  after_status o b =
      let (alerted, sent) = check_alerts fl o.has_alerter o.now b in
      let (enforced, _, policies) = enforce_budget fl o.now o.policies alerted in
      record {
        requeue_after = requeue_or_fail o.update_answer;
        failure = o.update_answer;
        updated = some enforced;
        policies = policies;
        sent = sent;
        persisted = persisted_of o.db o.update_answer enforced;
      }

  abbrev stopped : Duration → Option Error → Reconciled
  stopped requeue failure = record {
    requeue_after = requeue;
    failure = failure;
    updated = none;
    policies = [];
    sent = [];
    persisted = none;
  }

  abbrev with_status : Outside → Result (CostBudget fl) → Reconciled
  with_status o (err e) = stopped (pos 0) (some e)
  with_status o (ok b) = after_status o b

  abbrev of_found : Outside → CostBudget fl → Reconciled
  of_found o b =
      if b.spec.enabled
      then with_status o (update_budget_status fl o.pods_api o.db o.tracker o.calendar o.now b)
      else stopped (pos (5 * minute)) none

  unfoldable pub reconcile : Outside → Fetched → Reconciled
  unfolding update_budget_status after_status
  reconcile o not_found = stopped (pos 0) none
  reconcile o (failed e) = stopped (pos 0) (some e)
  reconcile o (found b) = of_found o b
