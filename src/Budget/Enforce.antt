-- ===== src/Budget/Enforce.antt =====
-- `enforceBudget`, `throttleResources` and what they call. The events that are recorded are left out.
use gpuautoscaler.Prelude.{
  ℕ, suc, ◌-◌, ◌*◌, ◌%◌, ◌^◌, ℤ, pos, negsuc, Bool, true, false, Option, none, some, List, [], ◌∷◌,
  if◌then◌else◌, ltb, ltb_ℤ, wrap64, String, str_eq,
}
use gpuautoscaler.Prelude.Float.{Float64}
use gpuautoscaler.Prelude.Results.{Error, message, wrapped, Result, ok, err}
use gpuautoscaler.Prelude.Time.{Time, Duration, zero_time, is_zero, time_sub, minute}
use gpuautoscaler.Budget.Model.{
  BudgetScope, ThrottleConfig, BudgetEnforcement, NodePoolSpec, AutoscalingPolicy, AlertFired,
  CostBudgetStatus, CostBudget,
}
use gpuautoscaler.Budget.Spend.{one_of}

-- `int32(n)`
abbrev residue32 : ℤ → ℕ
residue32 (pos n) = n % 2 ^ 32
residue32 (negsuc n) = 2 ^ 32 - 1 - n % 2 ^ 32

abbrev signed32 : ℕ → ℤ
signed32 r = if ltb r (2 ^ 31) then pos r else negsuc (2 ^ 32 - 1 - r)

unfoldable pub wrap32 : ℤ → ℤ
wrap32 n = signed32 (residue32 n)

-- A pool behind the throttling, and whether it was modified.
abbrev pub cap_pool : Option ℤ → NodePoolSpec → NodePoolSpec × Bool
cap_pool none pool = (pool, false)
cap_pool (some limit) pool =
    if ltb_ℤ (wrap32 limit) pool.max_size
    then (record pool { max_size = wrap32 limit }, true)
    else (pool, false)

unfoldable pub throttle_pool : ThrottleConfig → NodePoolSpec → NodePoolSpec × Bool
unfolding wrap32
throttle_pool config pool =
    if str_eq pool.capacity_type "spot"
    then (if config.block_spot_creation
        then (record pool { min_size = pos 0; max_size = pos 0 }, true)
        else cap_pool config.max_spot_instances pool)
    else (pool, false)

unfoldable pub throttle_pools : ThrottleConfig → List NodePoolSpec → List NodePoolSpec × Bool
unfolding throttle_pool
throttle_pools config [] = ([], false)
throttle_pools config (p ∷ ps) =
    let (pool, changed) = throttle_pool config p in
    let (rest, more) = throttle_pools config ps in (pool ∷ rest, if changed then true else more)

abbrev pub is_in_budget_scope : AutoscalingPolicy → List String → Bool
is_in_budget_scope policy [] = true
is_in_budget_scope policy namespaces = one_of policy.namespace namespaces

-- The loop of `throttleResources`: the policies given to `Update`, whose failure is only logged.
unfoldable pub throttle_policies :
    ThrottleConfig → BudgetScope → List AutoscalingPolicy → List AutoscalingPolicy
unfolding throttle_pools one_of
throttle_policies config scope [] = []
throttle_policies config scope (p ∷ ps) =
    let rest = throttle_policies config scope ps in
    let (pools, modified) = throttle_pools config p.node_pools in
    if is_in_budget_scope p scope.namespaces
    then (if modified then record p { node_pools = pools } ∷ rest else rest)
    else rest

abbrev pub throttled :
    ThrottleConfig
    → BudgetScope
    → Result (List AutoscalingPolicy)
    → Option Error × List AutoscalingPolicy
throttled config scope (err e) = (some e, [])
throttled config scope (ok policies) = (none, throttle_policies config scope policies)

abbrev pub throttled_by :
    Option ThrottleConfig
    → BudgetScope
    → Result (List AutoscalingPolicy)
    → Option Error × List AutoscalingPolicy
throttled_by none scope listed = (none, [])
throttled_by (some config) scope listed = throttled config scope listed

-- `throttleResources` of an enforcement that is set.
unfoldable pub throttle_resources :
    BudgetEnforcement
    → BudgetScope
    → Result (List AutoscalingPolicy)
    → Option Error × List AutoscalingPolicy
unfolding throttle_policies
throttle_resources e scope listed = throttled_by e.throttle_config scope listed

-- `blockNewPods`, which is not implemented.
abbrev pub block_new_pods : Option Error
block_new_pods =
    some (
      message "block enforcement mode not yet implemented - use 'throttle' or 'alert' mode instead")

-- `time.Duration(minutes) * time.Minute`
unfoldable pub in_minutes : ℤ → Duration
unfolding wrap64
in_minutes (pos n) = wrap64 (pos (n * minute))
in_minutes (negsuc n) = wrap64 (negsuc (suc n * minute - 1))

module _ (fl : Float64) where
  -- The fallback of `getExceededTime`: the earliest alert.
  unfoldable pub earliest_alert : Time → List (AlertFired fl) → Time
  earliest_alert earliest [] = earliest
  earliest_alert earliest (f ∷ fs) =
      earliest_alert
        (if is_zero earliest
          then f.timestamp
          else if ltb_ℤ f.timestamp earliest
          then f.timestamp
          else earliest)
        fs

  abbrev pub exceeded_time : Option Time → List (AlertFired fl) → Time
  exceeded_time (some t) fired = t
  exceeded_time none fired = earliest_alert zero_time fired

  unfoldable pub get_exceeded_time : CostBudgetStatus fl → Time
  unfolding earliest_alert
  get_exceeded_time s = exceeded_time s.exceeded_since s.alerts_fired

  unfoldable pub in_grace_period : Time → BudgetEnforcement → CostBudgetStatus fl → Bool
  unfolding get_exceeded_time in_minutes time_sub
  in_grace_period now e s =
      if is_zero (get_exceeded_time s)
      then false
      else ltb_ℤ (time_sub now (get_exceeded_time s)) (in_minutes e.grace_period_minutes)

  -- The budget, the error, and the policies that were updated.
  abbrev pub Enforced : Type 0
  Enforced = CostBudget fl × Option Error × List AutoscalingPolicy

  abbrev pub with_enforcement : Bool → CostBudget fl → CostBudget fl
  with_enforcement active b = record b { status = record b.status { enforcement_active = active } }

  abbrev pub after_throttling : CostBudget fl → Option Error × List AutoscalingPolicy → Enforced
  after_throttling b (some e, updates) =
      (b, some (wrapped "failed to throttle resources" e), updates)
  after_throttling b (none, updates) = (with_enforcement true b, none, updates)

  -- A failure to block is only logged.
  abbrev pub after_blocking : CostBudget fl → Option Error → Enforced
  after_blocking b (some e) = (with_enforcement true b, none, [])
  after_blocking b none = (with_enforcement true b, none, [])

  -- The switch over the action.
  unfoldable pub apply_enforcement :
      Result (List AutoscalingPolicy) → BudgetEnforcement → CostBudget fl → Enforced
  unfolding throttle_resources
  apply_enforcement listed e b =
      if str_eq e.action "throttle"
      then after_throttling b (throttle_resources e b.spec.scope listed)
      else if str_eq e.action "block"
      then after_blocking b block_new_pods
      else (with_enforcement true b, none, [])

  abbrev pub enforced_by :
      Time → Result (List AutoscalingPolicy) → Option BudgetEnforcement → CostBudget fl → Enforced
  enforced_by now listed none b = (b, none, [])
  enforced_by now listed (some e) b =
      if in_grace_period now e b.status
      then (b, none, [])
      else if b.status.enforcement_active
      then (b, none, [])
      else apply_enforcement listed e b

  unfoldable pub enforce_budget : Time → Result (List AutoscalingPolicy) → CostBudget fl → Enforced
  unfolding apply_enforcement in_grace_period
  enforce_budget now listed b =
      if str_eq b.status.budget_status "exceeded"
      then enforced_by now listed b.spec.enforcement b
      else if b.status.enforcement_active
      then (with_enforcement false b, none, [])
      else (b, none, [])
