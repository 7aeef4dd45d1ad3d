-- ===== src/Cost/Present.antt =====
-- The pods that have a cost after an update.
use gpuautoscaler.Prelude.{
  ◌≡◌, refl, ap, ◌∙◌, ℤ, pos, eqb_ℤ, Bool, true, false, Bool-cases, Option-cases, inl, inr, String,
  str_eq, eq_iff, List, [], ◌∷◌, All, All-mono, All-zip, lookup, lookup-insert,
}
use gpuautoscaler.Prelude.Float.{Float64}
use gpuautoscaler.Prelude.Results.{Result, ok, err}
use gpuautoscaler.Prelude.Time.{Time}
use gpuautoscaler.Kube.{Pod, Node}
use gpuautoscaler.Budget.Spend.{costs_gpu, is_present}
use gpuautoscaler.Cost.Labels.{get_gpu_count}
use gpuautoscaler.Cost.Tracker.{
  pod_key, PodCost, CostTracker, priced_on, calculate_pod_cost, Totals, added, cost_pods,
  update_costs,
}
use gpuautoscaler.Cost.Active.{is_active, costed_pod, cost_pods-step}
use gpuautoscaler.Cost.Cleaning.{cost_pods-present, cleaned-lookup, start}

-- `isGPUPod` and `getGPUCount` both find GPUs.
pub record IsCountable (p : Pod) : Type 0 where
  pub uses : costs_gpu p.containers ≡ true
  pub counts : eqb_ℤ (get_gpu_count p.containers (pos 0)) (pos 0) ≡ false

is_active-here : (p : Pod) (ps : List Pod) → IsCountable p → is_active (pod_key p) (p ∷ ps) ≡ true
unfolding is_active
is_active-here p ps c = rw (c.uses, (eq_iff (pod_key p) (pod_key p)).1 refl) refl

is_active-later :
    (q : String) (p : Pod) (ps : List Pod) → is_active q ps ≡ true → is_active q (p ∷ ps) ≡ true
unfolding is_active
is_active-later q p ps h = rw h (elim (Bool-cases (costs_gpu p.containers)) [
  | inr without ↦ rw without refl
  | inl gpu ↦ elim (Bool-cases (str_eq q (pod_key p))) [
    | inl same ↦ rw (gpu, same) refl
    | inr other ↦ rw (gpu, other) refl
  ]
])

active_all : (pods : List Pod) → All (λ p. IsCountable p → is_active (pod_key p) pods ≡ true) pods
active_all [] = tt
active_all (p ∷ ps) =
    (is_active-here p ps, All-mono ps (λ q f c. is_active-later _ p ps (f c)) (active_all ps))

module _ (fl : Float64) (has_db : Bool) (get_node : String → Result Node)
    (nodes : (name : String) → (n : Node) × (get_node name ≡ ok n)) (now : Time) where
  priced_on-ok :
      (p : Pod) (count : ℤ) (t : CostTracker fl)
      → (c : PodCost fl) × ((priced_on fl (get_node p.node_name) p count now t).1 ≡ ok c)
  priced_on-ok p count t = let (n, at) = nodes p.node_name in rw at (_, refl)

  calculate_pod_cost-ok :
      (p : Pod) (t : CostTracker fl)
      → IsCountable p
      → (c : PodCost fl) × ((calculate_pod_cost fl get_node now p t).1 ≡ ok c)
  unfolding calculate_pod_cost
  calculate_pod_cost-ok p t h = elim (Option-cases (lookup t.pod_cost_cache (pod_key p))) [
    | inr (c, cached) ↦ rw (calculate_pod_cost, cached) (_, refl)
    | inl new ↦
        rw (calculate_pod_cost, new, h.counts)
          (priced_on-ok p (get_gpu_count p.containers (pos 0)) t)
  ]

  added-present :
      (p : Pod) (s : Totals fl) (t : CostTracker fl) (answer : Result (PodCost fl)) (c : PodCost fl)
      → answer ≡ ok c
      → is_present (lookup (added fl has_db p s (t, answer)).tracker.pod_cost_cache (pod_key p))
        ≡ true
  added-present p s t (err e) c h = cc
  added-present p s t (ok d) c h =
      rw
        (
          lookup-insert t.pod_cost_cache (pod_key p) d (pod_key p),
          (eq_iff (pod_key p) (pod_key p)).1 refl,
        )
        refl

  costed_pod-present :
      (p : Pod) (s : Totals fl)
      → IsCountable p
      → is_present
          (lookup (costed_pod fl get_node now has_db p s).tracker.pod_cost_cache (pod_key p))
        ≡ true
  unfolding costed_pod
  costed_pod-present p s h =
      let (c, answer) = calculate_pod_cost-ok p s.tracker h in
      rw h.uses (
        added-present p s (calculate_pod_cost fl get_node now p s.tracker).0
          (calculate_pod_cost fl get_node now p s.tracker).1 c answer)

  cost_pods-costs :
      (pods : List Pod) (s : Totals fl)
      → All
          (λ p.
            IsCountable p
            → is_present (
                lookup (cost_pods fl has_db get_node now pods s).tracker.pod_cost_cache (pod_key p))
              ≡ true)
          pods
  unfolding costed_pod costs_gpu cost_pods
  cost_pods-costs [] s = tt
  cost_pods-costs (p ∷ ps) s =
      let next = costed_pod fl get_node now has_db p s in
      rw (cost_pods-step fl get_node now has_db p ps s) (
        (λ h.
            cost_pods-present fl has_db get_node now ps next (pod_key p)
              (costed_pod-present p s h)),
        cost_pods-costs ps next,
      )

  -- If every node can be read, then after an update the cache has an entry for every listed pod in which
  -- both `isGPUPod` and `getGPUCount` find GPUs.
  pub update_costs-present :
      (pods : List Pod) (t : CostTracker fl)
      → All
          (λ p.
            IsCountable p
            → is_present (
                lookup
                  (update_costs fl has_db get_node now (ok pods) t).0.pod_cost_cache
                  (pod_key p))
              ≡ true)
          pods
  unfolding update_costs start
  update_costs-present pods t =
      let s = start fl has_db get_node now t in
      All-zip pods
        (λ p active costed h.
          ap is_present (cleaned-lookup fl has_db get_node now pods t (pod_key p))
          ∙ rw (active h) (costed h))
        (active_all pods) (cost_pods-costs pods s)
