-- ===== src/Budget/Throttle.antt =====
-- What `throttleResources` makes of node pools and policies.
use gpuautoscaler.Prelude.{
  ℕ, suc, get_elem?, sym, ◌∙◌, ◌≡◌, ◌⊎◌, refl, inl, inr, ℤ, pos, ◌≤ℤ◌, Bool, true, false,
  Bool-cases, Option, none, some, List, [], ◌∷◌, All, All-mono, arith, str_eq, ltb_ℤ,
}
use mathlib.Core.Path.{subst}
use gpuautoscaler.Budget.Model.{BudgetScope, ThrottleConfig, NodePoolSpec, AutoscalingPolicy}
use gpuautoscaler.Budget.Enforce.{
  wrap32, cap_pool, throttle_pool, throttle_pools, is_in_budget_scope, throttle_policies,
}

-- A pool is within what the throttling allows.
abbrev pub IsWithin : ThrottleConfig → NodePoolSpec → Type 0
IsWithin config pool =
    str_eq pool.capacity_type "spot" ≡ true
    → (config.block_spot_creation ≡ true → (pool.min_size ≡ pos 0) × (pool.max_size ≡ pos 0))
      × ((limit : ℤ)
          → config.block_spot_creation ≡ false
          → config.max_spot_instances ≡ some limit
          → pool.max_size ≤ℤ wrap32 limit)

-- Nothing but a spot pool's sizes changes, and they do not grow if they are not negative.
abbrev pub IsReduced : NodePoolSpec → NodePoolSpec → Type 0
IsReduced before after =
    (after.name ≡ before.name)
    × (after.capacity_type ≡ before.capacity_type)
    × (str_eq before.capacity_type "spot" ≡ false → after ≡ before)
    × (pos 0 ≤ℤ before.max_size → after.max_size ≤ℤ before.max_size)

same_limit : (limit l x : ℤ) → some limit ≡ some l → x ≤ℤ wrap32 limit → x ≤ℤ wrap32 l
same_limit limit l x e h = let same : limit ≡ l = cc in subst (λ y. x ≤ℤ wrap32 y) same h

-- What throttling makes of a pool; if it says that nothing was modified, nothing was.
abbrev pub IsThrottled : ThrottleConfig → NodePoolSpec → NodePoolSpec × Bool → Type 0
IsThrottled config pool (after, modified) =
    IsWithin config after × IsReduced pool after × (modified ≡ false → after ≡ pool)

cap_pool-IsThrottled :
    (limit : Option ℤ) (config : ThrottleConfig) (pool : NodePoolSpec)
    → config.max_spot_instances ≡ limit
    → config.block_spot_creation ≡ false
    → str_eq pool.capacity_type "spot" ≡ true
    → IsThrottled config pool (cap_pool limit pool)
cap_pool-IsThrottled none config pool at free spot = (
  (λ h. (λ k. absurd cc, λ l h k. absurd cc)),
  (refl, refl, λ h. refl, λ h. omega arith),
  λ h. refl,
)
cap_pool-IsThrottled (some limit) config pool at free spot =
    elim (Bool-cases (ltb_ℤ (wrap32 limit) pool.max_size)) [
      | inl larger ↦ rw larger (
        (λ h. (
          λ k. absurd cc,
          λ l h k. same_limit limit l (wrap32 limit) (sym at ∙ k) (omega arith),
        )),
        (refl, refl, λ h. absurd cc, λ h. ground arith),
        λ h. absurd cc,
      )
      | inr fits ↦ rw fits (
        (λ h. (
          λ k. absurd cc,
          λ l h k. same_limit limit l pool.max_size (sym at ∙ k) (ground arith),
        )),
        (refl, refl, λ h. refl, λ h. omega arith),
        λ h. refl,
      )
    ]

-- A spot pool behind throttling has the sizes 0 if spot creation is blocked, else at most
-- `MaxSpotInstances` (as an int32) nodes if that is set; its name and type stay, its maximal size does
-- not grow from one that is not negative; other pools stay as they are, and so does a pool that is
-- reported as not modified.
pub throttle_pool-IsThrottled :
    (config : ThrottleConfig) (pool : NodePoolSpec)
    → IsThrottled config pool (throttle_pool config pool)
unfolding throttle_pool
throttle_pool-IsThrottled config pool = elim (Bool-cases (str_eq pool.capacity_type "spot")) [
  | inl spot ↦ elim (Bool-cases config.block_spot_creation) [
    | inl blocked ↦
        let same : throttle_pool config pool
            ≡ (record pool { min_size = pos 0; max_size = pos 0 }, true) =
          rw (spot, blocked) refl in
        subst (IsThrottled config pool) (sym same) (
          (λ h. (λ k. (refl, refl), λ l h k. absurd cc)),
          (refl, refl, λ h. absurd cc, λ h. h),
          λ h. absurd cc,
        )
    | inr free ↦
        let same : throttle_pool config pool ≡ cap_pool config.max_spot_instances pool =
          rw (spot, free) refl in
        subst (IsThrottled config pool) (sym same)
          (cap_pool-IsThrottled config.max_spot_instances config pool refl free spot)
  ]
  | inr other ↦
      let same : throttle_pool config pool ≡ (pool, false) = rw other refl in
      subst (IsThrottled config pool) (sym same)
        ((λ h. absurd cc), (refl, refl, λ h. refl, λ h. omega arith), λ h. refl)
]

throttle_pools-IsWithin :
    (config : ThrottleConfig) (pools : List NodePoolSpec)
    → All (IsWithin config) (throttle_pools config pools).0
unfolding throttle_pools
throttle_pools-IsWithin config [] = tt
throttle_pools-IsWithin config (p ∷ ps) =
    ((throttle_pool-IsThrottled config p).0, throttle_pools-IsWithin config ps)

throttle_pools-unmodified :
    (config : ThrottleConfig) (pools : List NodePoolSpec)
    → (throttle_pools config pools).1 ≡ false
    → (throttle_pools config pools).0 ≡ pools
unfolding throttle_pools
throttle_pools-unmodified config [] h = refl
throttle_pools-unmodified config (p ∷ ps) h =
    let first = (throttle_pool-IsThrottled config p).2 in
    elim (Bool-cases (throttle_pool config p).1) [
      | inl changed ↦ absurd (ground (arith, changed, h))
      | inr kept ↦
          let rest : (throttle_pools config ps).1 ≡ false = ground (arith, kept, h) in
          rw (first kept, throttle_pools-unmodified config ps rest) refl
    ]

abbrev pub IsMember {ℓ} : {A : Type ℓ} → A → List A → Type ℓ
IsMember a as' = (i : ℕ) × (get_elem? as' i ≡ some a)

-- A policy that was updated lies in the budget's scope, and its pools are within the limits.
abbrev pub IsUpdate : ThrottleConfig → BudgetScope → AutoscalingPolicy → Type 0
IsUpdate config scope u =
    (is_in_budget_scope u scope.namespaces ≡ true) × All (IsWithin config) u.node_pools

-- A policy in scope is within the limits as it is, or it is updated.
abbrev pub IsCovered :
    ThrottleConfig → BudgetScope → List AutoscalingPolicy → AutoscalingPolicy → Type 0
IsCovered config scope updates p =
    is_in_budget_scope p scope.namespaces ≡ true
    → All (IsWithin config) p.node_pools
      ⊎ IsMember (record p { node_pools = (throttle_pools config p.node_pools).0 }) updates

IsCovered-later :
    (config : ThrottleConfig) (scope : BudgetScope) (u : AutoscalingPolicy)
    (updates policies : List AutoscalingPolicy)
    → All (IsCovered config scope updates) policies
    → All (IsCovered config scope (u ∷ updates)) policies
IsCovered-later config scope u updates policies h =
    All-mono policies
      (λ p covered inside. elim (covered inside) [
        | inl within ↦ inl within
        | inr (i, at) ↦ inr (suc i, at)
      ])
      h

-- What `throttleResources` gives to `Update`: only policies in the budget's scope, each with every spot
-- pool within the limits (sizes 0 where spot creation is blocked, else at most `MaxSpotInstances` as an
-- int32); and each policy in scope is within the limits as it is or is among them with its pools
-- throttled.
pub throttle_policies-IsUpdate :
    (config : ThrottleConfig) (scope : BudgetScope) (policies : List AutoscalingPolicy)
    → All (IsUpdate config scope) (throttle_policies config scope policies)
      × All (IsCovered config scope (throttle_policies config scope policies)) policies
unfolding throttle_policies
throttle_policies-IsUpdate config scope [] = (tt, tt)
throttle_policies-IsUpdate config scope (p ∷ ps) =
    let (sound, covered) = throttle_policies-IsUpdate config scope ps in
    let within = throttle_pools-IsWithin config p.node_pools in
    let updates = throttle_policies config scope ps in
    let u : AutoscalingPolicy = record p { node_pools = (throttle_pools config p.node_pools).0 } in
    let Answer : List AutoscalingPolicy → Type 0 =
      λ us. All (IsUpdate config scope) us × All (IsCovered config scope us) (p ∷ ps) in
    elim (Bool-cases (is_in_budget_scope p scope.namespaces)) [
      | inl inside ↦ elim (Bool-cases (throttle_pools config p.node_pools).1) [
        | inl modified ↦
            let same : throttle_policies config scope (p ∷ ps) ≡ u ∷ updates =
              rw (inside, modified) refl in
            subst Answer (sym same) (
              ((inside, within), sound),
              ((λ _. inr (0, refl)), IsCovered-later config scope u updates ps covered),
            )
        | inr unmodified ↦
            let same : throttle_policies config scope (p ∷ ps) ≡ updates =
              rw (inside, unmodified) refl in
            let kept = throttle_pools-unmodified config p.node_pools unmodified in
            subst Answer (sym same)
              (sound, ((λ _. inl (subst (All (IsWithin config)) kept within)), covered))
      ]
      | inr outside ↦
          let same : throttle_policies config scope (p ∷ ps) ≡ updates = rw outside refl in
          subst Answer (sym same) (sound, ((λ inside. absurd cc), covered))
    ]
