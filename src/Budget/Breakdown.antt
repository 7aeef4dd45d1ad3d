-- ===== src/Budget/Breakdown.antt =====
-- `buildCostBreakdown`: what the pods in the scope of a budget have cost, by namespace, team, type of GPU
-- and capacity.
use gpuautoscaler.Prelude.{
  ◌≡◌, refl, ap, ◌∙◌, Option, none, some, String, str_eq, List, [], ◌∷◌, lookup, insert,
  if◌then◌else◌, arith,
}
use gpuautoscaler.Prelude.Float.{Float64}
use gpuautoscaler.Prelude.Sums.{number_or, raise, lookup-raise}
use gpuautoscaler.Prelude.Results.{Result, ok, err}
use gpuautoscaler.Kube.{Pod, text_at}
use gpuautoscaler.Budget.Model.{BudgetScope, CostBreakdown}
use gpuautoscaler.Budget.Spend.{PodsApi, get_scope_pods}
use gpuautoscaler.Cost.Tracker.{PodCost, CostTracker, get_pod_cost}

module _ (fl : Float64) where
  abbrev pub add_pod : Pod → Option (PodCost fl) → CostBreakdown fl → CostBreakdown fl
  add_pod pod none b = b
  add_pod pod (some c) b = record {
    by_namespace = raise fl pod.namespace c.total_cost b.by_namespace;
    by_instance_type = raise fl c.gpu_type c.total_cost b.by_instance_type;
    spot_vs_on_demand = raise fl c.capacity_type c.total_cost b.spot_vs_on_demand;
    by_label =
        (let team = text_at "team" pod.labels in
          if str_eq team "" then b.by_label else raise fl team c.total_cost b.by_label);
  }

  unfoldable pub add_pods : CostTracker fl → List Pod → CostBreakdown fl → CostBreakdown fl
  unfolding get_pod_cost insert lookup
  add_pods t [] b = b
  add_pods t (p ∷ ps) b = add_pods t ps (add_pod p (get_pod_cost fl t p.namespace p.name) b)

  abbrev pub empty_breakdown : CostBreakdown fl
  empty_breakdown = record {
    by_namespace = [];
    by_label = [];
    by_instance_type = [];
    spot_vs_on_demand = [];
  }

  abbrev pub breakdown_of : CostTracker fl → Result (List Pod) → CostBreakdown fl
  breakdown_of t (err e) = empty_breakdown
  breakdown_of t (ok pods) = add_pods t pods empty_breakdown

  -- An error of the list leaves the breakdown empty.
  unfoldable pub build_cost_breakdown : PodsApi → CostTracker fl → BudgetScope → CostBreakdown fl
  unfolding get_scope_pods add_pods
  build_cost_breakdown api t scope = breakdown_of t (get_scope_pods api scope)

  abbrev pub plus : Option fl.F → Option (PodCost fl) → Option fl.F
  plus sum none = sum
  plus sum (some c) = some (fl.add (number_or fl sum) c.total_cost)

  -- The costs of the pods of a namespace, one after the other.
  abbrev pub sum_in : CostTracker fl → String → List Pod → Option fl.F → Option fl.F
  sum_in t namespace [] sum = sum
  sum_in t namespace (p ∷ ps) sum = sum_in t namespace ps (
      if str_eq namespace p.namespace then plus sum (get_pod_cost fl t p.namespace p.name) else sum)

  add_pod-lookup :
      (p : Pod) (cost : Option (PodCost fl)) (b : CostBreakdown fl) (q : String)
      → lookup (add_pod p cost b).by_namespace q ≡ (
          if str_eq q p.namespace
          then plus (lookup b.by_namespace q) cost
          else lookup b.by_namespace q)
  add_pod-lookup p none b q = ground arith
  add_pod-lookup p (some c) b q = lookup-raise fl p.namespace c.total_cost b.by_namespace q

  pub add_pods-lookup :
      (t : CostTracker fl) (pods : List Pod) (b : CostBreakdown fl) (q : String)
      → lookup (add_pods t pods b).by_namespace q ≡ sum_in t q pods (lookup b.by_namespace q)
  unfolding add_pods
  add_pods-lookup t [] b q = refl
  add_pods-lookup t (p ∷ ps) b q =
      let cost = get_pod_cost fl t p.namespace p.name in
      add_pods-lookup t ps (add_pod p cost b) q ∙ ap (sum_in t q ps) (add_pod-lookup p cost b q)

  -- In the breakdown of a budget a namespace has the sum of the costs of the pods in scope that run in it,
  -- and no entry if none of them has a cost.
  pub build_cost_breakdown-lookup :
      (api : PodsApi) (t : CostTracker fl) (scope : BudgetScope) (pods : List Pod) (q : String)
      → get_scope_pods api scope ≡ ok pods
      → lookup (build_cost_breakdown api t scope).by_namespace q ≡ sum_in t q pods none
  unfolding build_cost_breakdown
  build_cost_breakdown-lookup api t scope pods q answer =
      rw answer (add_pods-lookup t pods empty_breakdown q ∙ (unfold lookup in refl))
