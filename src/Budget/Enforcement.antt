-- ===== src/Budget/Enforcement.antt =====
-- When `enforceBudget` has the enforcement on, and when it throttles.
use gpuautoscaler.Prelude.{
  ◌≡◌, ◌↔◌, ◌⊎◌, refl, inl, inr, Bool, true, false, Bool-cases, Option, none, some, List, [],
  if◌then◌else◌, str_eq,
}
use mathlib.Core.Path.{subst}
use gpuautoscaler.Prelude.Float.{Float64}
use gpuautoscaler.Prelude.Results.{Result, ok, err}
use gpuautoscaler.Prelude.Time.{Time}
use gpuautoscaler.Budget.Model.{
  BudgetScope, ThrottleConfig, BudgetEnforcement, AutoscalingPolicy, CostBudget,
}
use gpuautoscaler.Budget.Enforce.{
  throttled_by, throttle_resources, in_grace_period, after_throttling, Enforced, apply_enforcement,
  enforced_by, enforce_budget,
}

abbrev pub IsListed : Option ThrottleConfig → Result (List AutoscalingPolicy) → Type 0
IsListed none listed = Unit
IsListed (some config) (err e) = ⊥
IsListed (some config) (ok policies) = Unit

-- Nothing stops the action: a throttling that is configured needs the list of the policies.
abbrev pub CanAct : Result (List AutoscalingPolicy) → BudgetEnforcement → Type 0
CanAct listed e = str_eq e.action "throttle" ≡ true → IsListed e.throttle_config listed

module _ (fl : Float64) where
  abbrev pub is_active : CostBudget fl → Bool
  is_active b = b.status.enforcement_active

  throttling-active :
      (b : CostBudget fl) (config : Option ThrottleConfig) (scope : BudgetScope)
      (listed : Result (List AutoscalingPolicy))
      → is_active b ≡ false
      → (is_active (after_throttling fl b (throttled_by config scope listed)).0 ≡ true)
        ↔ IsListed config listed
  throttling-active b none scope listed off = (λ _. tt, λ _. refl)
  throttling-active b (some config) scope (err e) off = (λ h. absurd cc, λ h. absurd h)
  throttling-active b (some config) scope (ok policies) off = (λ _. tt, λ _. refl)

  apply_enforcement-active :
      (listed : Result (List AutoscalingPolicy)) (e : BudgetEnforcement) (b : CostBudget fl)
      → is_active b ≡ false
      → (is_active (apply_enforcement fl listed e b).0 ≡ true) ↔ CanAct listed e
  unfolding apply_enforcement throttle_resources
  apply_enforcement-active listed e b off = elim (Bool-cases (str_eq e.action "throttle")) [
    | inl throttles ↦
        let h = throttling-active b e.throttle_config b.spec.scope listed off in
        rw throttles (λ x _. h.0 x, λ f. h.1 (f refl))
    | inr other ↦ elim (Bool-cases (str_eq e.action "block")) [
      | inl blocks ↦ rw (other, blocks) (λ _ h. cc, λ _. refl)
      | inr alerts ↦ rw (other, alerts) (λ _ h. cc, λ _. refl)
    ]
  ]

  apply_enforcement-updates :
      (listed : Result (List AutoscalingPolicy)) (e : BudgetEnforcement) (b : CostBudget fl)
      → ((apply_enforcement fl listed e b).2 ≡ []) ⊎ (str_eq e.action "throttle" ≡ true)
  unfolding apply_enforcement
  apply_enforcement-updates listed e b = elim (Bool-cases (str_eq e.action "throttle")) [
    | inl throttles ↦ inr throttles
    | inr other ↦ elim (Bool-cases (str_eq e.action "block")) [
      | inl blocks ↦ inl (rw (other, blocks) refl)
      | inr alerts ↦ inl (rw (other, alerts) refl)
    ]
  ]

  -- The budget has an enforcement whose grace period is over and that nothing stops.
  abbrev pub IsDue :
      Time → Result (List AutoscalingPolicy) → CostBudget fl → Option BudgetEnforcement → Type 0
  IsDue now listed b none = ⊥
  IsDue now listed b (some e) = (in_grace_period fl now e b.status ≡ false) × CanAct listed e

  -- The only reason to update a policy.
  abbrev pub Throttles : Time → CostBudget fl → Option BudgetEnforcement → Type 0
  Throttles now b none = ⊥
  Throttles now b (some e) =
      (in_grace_period fl now e b.status ≡ false) × (str_eq e.action "throttle" ≡ true)

  abbrev Answers :
      Time
      → Result (List AutoscalingPolicy)
      → CostBudget fl
      → Option BudgetEnforcement
      → Enforced fl
      → Type 0
  Answers now listed b enforcement o =
      ((is_active o.0 ≡ true) ↔ ((is_active b ≡ true) ⊎ IsDue now listed b enforcement))
      × ((o.2 ≡ []) ⊎ ((is_active b ≡ false) × Throttles now b enforcement))

  -- What comes behind the two guards.
  behind_guards :
      (grace on : Bool) (stay act : Enforced fl)
      → grace ≡ false
      → on ≡ false
      → act ≡ (if grace then stay else if on then stay else act)
  behind_guards grace on stay act h k = rw (h, k) refl

  enforced_by-active :
      (now : Time) (listed : Result (List AutoscalingPolicy)) (b : CostBudget fl)
      (enforcement : Option BudgetEnforcement)
      → Answers now listed b enforcement (enforced_by fl now listed enforcement b)
  enforced_by-active now listed b none =
      ((λ h. inl h, λ h. elim h [ inl on ↦ on | inr due ↦ absurd due ]), inl refl)
  enforced_by-active now listed b (some e) = elim (Bool-cases (in_grace_period fl now e b.status)) [
    | inl grace ↦ (
      rw grace (λ h. inl h, λ h. elim h [ inl on ↦ on | inr due ↦ cc due.0 ]),
      inl (rw grace refl),
    )
    | inr over ↦ elim (Bool-cases (is_active b)) [
      | inl on ↦ ((λ _. inl on, λ _. rw (over, on) refl), inl (rw (over, on) refl))
      | inr off ↦
          let h = apply_enforcement-active listed e b off in
          subst (Answers now listed b (some e))
            (behind_guards (in_grace_period fl now e b.status) (is_active b) (b, none, [])
              (apply_enforcement fl listed e b) over off)
            (
              (λ x. inr (over, h.0 x), λ x. elim x [ inl on ↦ cc | inr due ↦ h.1 due.1 ]),
              elim (apply_enforcement-updates listed e b) [
                | inl idle ↦ inl idle
                | inr throttles ↦ inr (off, (over, throttles))
              ],
            )
    ]
  ]

  -- What `enforceBudget` does, by what it is given.
  pub record IsEnforced (now : Time) (listed : Result (List AutoscalingPolicy)) (b : CostBudget fl)
      (o : Enforced fl) : Type 0 where
    pub active_iff : (is_active o.0 ≡ true) ↔ (
        (str_eq b.status.budget_status "exceeded" ≡ true)
        × ((is_active b ≡ true) ⊎ IsDue now listed b b.spec.enforcement))
    pub updates_only :
        (o.2 ≡ [])
        ⊎ ((str_eq b.status.budget_status "exceeded" ≡ true)
            × (is_active b ≡ false)
            × Throttles now b b.spec.enforcement)

  -- After `enforceBudget` the enforcement is active exactly if the budget is exceeded and the enforcement
  -- was active or is due: one is configured, its grace period is over, and the policies can be listed
  -- if it throttles them. Policies are updated only if the budget is exceeded, the action is to throttle,
  -- the grace period is over and the enforcement was not active yet.
  pub enforce_budget-IsEnforced :
      (now : Time) (listed : Result (List AutoscalingPolicy)) (b : CostBudget fl)
      → IsEnforced now listed b (enforce_budget fl now listed b)
  unfolding enforce_budget
  enforce_budget-IsEnforced now listed b =
      elim (Bool-cases (str_eq b.status.budget_status "exceeded")) [
        | inl over ↦
            let (active, updates) = enforced_by-active now listed b b.spec.enforcement in
            rw over (record {
              active_iff = (λ h. (over, active.0 h), λ h. active.1 h.1);
              updates_only = elim updates [ inl idle ↦ inl idle | inr h ↦ inr (over, h.0, h.1) ];
            })
        | inr under ↦ elim (Bool-cases (is_active b)) [
          | inl on ↦
              rw (under, on)
                (record { active_iff = (λ h. cc, λ h. cc h.0); updates_only = inl refl })
          | inr off ↦
              rw (under, off)
                (record { active_iff = (λ h. cc, λ h. cc h.0); updates_only = inl refl })
        ]
      ]
