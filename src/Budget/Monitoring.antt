-- ===== src/Budget/Monitoring.antt =====
-- A whole reconciliation of a budget.
use gpuautoscaler.Prelude.{
  ◌≡◌, ◌↔◌, ◌⊎◌, refl, sym, ap, inl, inr, Bool, true, false, Bool-cases, Option, none, some, List,
  [], All, if◌then◌else◌, str_eq,
}
use mathlib.Core.Path.{subst}
use gpuautoscaler.Prelude.Float.{Float64}
use gpuautoscaler.Prelude.Results.{Error, Result, ok}
use gpuautoscaler.Prelude.Time.{Time}
use gpuautoscaler.Budget.Model.{BudgetEnforcement, AutoscalingPolicy, CostBudget}
use gpuautoscaler.Budget.Spend.{calculate_scope_spend}
use gpuautoscaler.Budget.Breakdown.{build_cost_breakdown}
use gpuautoscaler.Budget.Status.{
  start_of, live_cost, next_status, update_budget_status, check_alerts,
}
use gpuautoscaler.Budget.Enforce.{
  Enforced, with_enforcement, after_throttling, throttle_resources, apply_enforcement, enforced_by,
  in_grace_period, get_exceeded_time, enforce_budget,
}
use gpuautoscaler.Budget.Reconcile.{found, Outside, persisted_of, after_status, reconcile}
use gpuautoscaler.Budget.Alerts.{IsTold, check_alerts-IsAlerted}
use gpuautoscaler.Budget.Enforcement.{IsDue, enforce_budget-IsEnforced}

module _ (fl : Float64) where
  -- Only the flag of the enforcement differs.
  abbrev pub SameButFlag : CostBudget fl → CostBudget fl → Type 0
  SameButFlag b b' = (active : Bool) × (b' ≡ with_enforcement fl active b)

  with_own_flag : (b : CostBudget fl) → SameButFlag b b
  with_own_flag b = (b.status.enforcement_active, refl)

  after_throttling-flag :
      (b : CostBudget fl) (answer : Option Error × List AutoscalingPolicy)
      → SameButFlag b (after_throttling fl b answer).0
  after_throttling-flag b (some e, updates) = with_own_flag b
  after_throttling-flag b (none, updates) = (true, refl)

  either_flag :
      (b : CostBudget fl) (c : Bool) (x y : Enforced fl)
      → SameButFlag b x.0
      → SameButFlag b y.0
      → SameButFlag b (if c then x else y).0
  either_flag b true x y h k = h
  either_flag b false x y h k = k

  apply_enforcement-flag :
      (listed : Result (List AutoscalingPolicy)) (e : BudgetEnforcement) (b : CostBudget fl)
      → SameButFlag b (apply_enforcement fl listed e b).0
  unfolding apply_enforcement
  apply_enforcement-flag listed e b =
      either_flag b _ _ _ (after_throttling-flag b (throttle_resources e b.spec.scope listed))
        (either_flag b _ _ _ (true, refl) (true, refl))

  enforced_by-flag :
      (now : Time) (listed : Result (List AutoscalingPolicy)) (b : CostBudget fl)
      (enforcement : Option BudgetEnforcement)
      → SameButFlag b (enforced_by fl now listed enforcement b).0
  enforced_by-flag now listed b none = with_own_flag b
  enforced_by-flag now listed b (some e) =
      let act = apply_enforcement fl listed e b in
      let stay : Enforced fl = (b, none, []) in
      let inner =
        either_flag b b.status.enforcement_active stay act (with_own_flag b)
          (apply_enforcement-flag listed e b) in
      either_flag b (in_grace_period fl now e b.status) stay
        (if b.status.enforcement_active then stay else act) (with_own_flag b) inner

  enforce_budget-flag :
      (now : Time) (listed : Result (List AutoscalingPolicy)) (b : CostBudget fl)
      → SameButFlag b (enforce_budget fl now listed b).0
  unfolding enforce_budget
  enforce_budget-flag now listed b =
      let active = b.status.enforcement_active in
      let stay : Enforced fl = (b, none, []) in
      let lift : Enforced fl = (with_enforcement fl false b, none, []) in
      either_flag b (str_eq b.status.budget_status "exceeded")
        (enforced_by fl now listed b.spec.enforcement b) (if active then lift else stay)
        (enforced_by-flag now listed b b.spec.enforcement)
        (either_flag b active lift stay (false, refl) (with_own_flag b))

  -- The flag has no part in what is due.
  IsDue-flag :
      (now : Time) (listed : Result (List AutoscalingPolicy)) (b : CostBudget fl) (active : Bool)
      (enforcement : Option BudgetEnforcement)
      → IsDue fl now listed b enforcement
        ↔ IsDue fl now listed (with_enforcement fl active b) enforcement
  unfolding in_grace_period get_exceeded_time
  IsDue-flag now listed b active none = (λ h. h, λ h. h)
  IsDue-flag now listed b active (some e) = (λ h. h, λ h. h)

  -- What a reconciliation gives to the update of the status: the new figures, all alerts that are
  -- reached, and the enforcement.
  pub record IsMonitored (o : Outside fl) (b : CostBudget fl) (spend : fl.F) (b' : CostBudget fl)
      : Type 0 where
    pub same_spec : b'.spec ≡ b.spec
    pub figures :
        let parts = build_cost_breakdown fl o.pods_api o.tracker b.spec.scope in
        let s = next_status fl o.calendar o.now spend parts b in
        (b'.status.current_spend ≡ s.current_spend)
        × (b'.status.percentage_used ≡ s.percentage_used)
        × (b'.status.budget_status ≡ s.budget_status)
        × (b'.status.exceeded_since ≡ s.exceeded_since)
        × (b'.status.breakdown ≡ parts)
    pub told : All (IsTold fl b' b'.status.alerts_fired) b.spec.alerts
    pub lifted :
        str_eq b'.status.budget_status "exceeded" ≡ false → b'.status.enforcement_active ≡ false
    pub begins :
        b.status.enforcement_active ≡ false
        → b'.status.enforcement_active ≡ true
        → IsDue fl o.now o.policies b' b.spec.enforcement
    pub acts :
        str_eq b'.status.budget_status "exceeded" ≡ true
        → IsDue fl o.now o.policies b' b.spec.enforcement
        → b'.status.enforcement_active ≡ true

  module _ (o : Outside fl) (b : CostBudget fl) (spend : fl.F) where
    abbrev alerted : CostBudget fl
    alerted =
        let b' : CostBudget fl = record b {
          status =
              next_status fl o.calendar o.now spend
                (build_cost_breakdown fl o.pods_api o.tracker b.spec.scope) b;
        } in
        (check_alerts fl o.has_alerter o.now b').0

    alerted-IsMonitored :
        (active : Bool)
        → (active ≡ true) ↔ (
            (str_eq alerted.status.budget_status "exceeded" ≡ true)
            × ((alerted.status.enforcement_active ≡ true)
                ⊎ IsDue fl o.now o.policies alerted alerted.spec.enforcement))
        → IsMonitored o b spend (with_enforcement fl active alerted)
    unfolding check_alerts next_status
    alerted-IsMonitored active h =
        let due = IsDue-flag o.now o.policies alerted active b.spec.enforcement in
        let b' : CostBudget fl = record b {
          status =
              next_status fl o.calendar o.now spend
                (build_cost_breakdown fl o.pods_api o.tracker b.spec.scope) b;
        } in
        record {
          same_spec = refl;
          figures = (refl, refl, refl, refl, refl);
          told = (check_alerts-IsAlerted fl o.has_alerter o.now o.now b').0.told;
          lifted = λ calm. elim (Bool-cases active) [
            | inl on ↦ let over = (h.0 on).0 in absurd cc
            | inr off ↦ off
          ];
          begins = λ off on. elim (h.0 on).1 [ inl was ↦ absurd cc | inr x ↦ due.0 x ];
          acts = λ over x. h.1 (over, inr (due.1 x));
        }

    -- A reconciliation of an enabled budget whose spend is known updates the status: to the new figures
    -- and the breakdown of the costs in scope, with an open alert for every threshold that is reached, and
    -- with the enforcement off if the budget is not exceeded, on if it is exceeded and an enforcement is
    -- due, and newly on only if one is due. The figures of this status go to the database if there is one
    -- and the update succeeds, and to no database otherwise.
    pub reconcile-IsMonitored :
        b.spec.enabled ≡ true
        → calculate_scope_spend fl o.pods_api o.db
            (live_cost fl o.tracker)
            b.spec.scope
            (start_of fl o.calendar o.now b.spec.start_date)
            o.now
          ≡ ok spend
        → (b' : CostBudget fl) × ((reconcile fl o (found b)).updated ≡ some b')
          × ((reconcile fl o (found b)).persisted ≡ persisted_of fl o.db o.update_answer b')
          × IsMonitored o b spend b'
    unfolding reconcile after_status update_budget_status
    reconcile-IsMonitored on known =
        let (active, same) = enforce_budget-flag o.now o.policies alerted in
        let h = enforce_budget-IsEnforced fl o.now o.policies alerted in
        let flag = ap (λ x. x.status.enforcement_active) same in
        let Settled : Bool → Type 0 = λ x. (x ≡ true) ↔ (
          (str_eq alerted.status.budget_status "exceeded" ≡ true)
          × ((alerted.status.enforcement_active ≡ true)
              ⊎ IsDue fl o.now o.policies alerted alerted.spec.enforcement)) in
        (
          (enforce_budget fl o.now o.policies alerted).0,
          rw (on, known) refl,
          rw (on, known) refl,
          subst (IsMonitored o b spend) (sym same)
              (alerted-IsMonitored active (subst Settled flag h.active_iff)),
        )
