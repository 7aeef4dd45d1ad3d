-- ===== src/Attribution/Counted.antt =====
-- The status of an attribution behind an update of the cost tracker.
use gpuautoscaler.Prelude.{
  ◌≡◌, refl, ◌∙◌, Bool, true, Option, none, some, inl, inr, String, List, [], ◌∷◌, ◌+◌, length, All,
  Any, arith,
}
use mathlib.Core.Path.{subst}
use gpuautoscaler.Prelude.Float.{Float64}
use gpuautoscaler.Prelude.Results.{Result, ok}
use gpuautoscaler.Prelude.Time.{Time}
use gpuautoscaler.Kube.{Pod, Node}
use gpuautoscaler.Budget.Spend.{PodsApi, is_present}
use gpuautoscaler.Cost.Tracker.{PodCost, CostTracker, get_pod_cost, update_costs}
use gpuautoscaler.Cost.Present.{IsCountable, update_costs-present}
use gpuautoscaler.Attribution.Select.{CostAttributionSpec, get_matching_pods}
use gpuautoscaler.Attribution.Model.{CostDb, Calendar, CostAttributionStatus}
use gpuautoscaler.Attribution.Status.{update_attribution_status}
use gpuautoscaler.Attribution.Names.{with_cost, costed, update_attribution_status-by_pod}

-- What holds along a list holds of what is in it.
All-any : {A : Type 0} (P : A → Type 0) (xs : List A) (x : A) → All P xs → Any (λ y. y ≡ x) xs → P x
All-any P [] x h at = absurd at
All-any P (y ∷ ys) x (p, h) (inl here) = subst P here p
All-any P (y ∷ ys) x (p, h) (inr there) = All-any P ys x h there

module _ (fl : Float64) where
  length-with_cost :
      (name : String) (cost : Option (PodCost fl)) (rest : List (String × PodCost fl))
      → is_present cost ≡ true
      → length (with_cost fl name cost rest) ≡ length rest + 1
  length-with_cost name none rest h = cc
  length-with_cost name (some c) rest h = omega arith

  abbrev IsCosted : CostTracker fl → Pod → Type 0
  IsCosted t p = is_present (get_pod_cost fl t p.namespace p.name) ≡ true

  length-costed :
      (t : CostTracker fl) (pods : List Pod)
      → All (IsCosted t) pods
      → length (costed fl t pods) ≡ length pods
  length-costed t [] _ = refl
  length-costed t (p ∷ ps) (h, hs) =
      let one = length-with_cost p.name (get_pod_cost fl t p.namespace p.name) (costed fl t ps) h in
      omega (arith, one, length-costed t ps hs)

  module _ (has_db : Bool) (get_node : String → Result Node)
      (nodes : (name : String) → (n : Node) × (get_node name ≡ ok n)) where
    listed-IsCosted :
        (now : Time) (running : List Pod) (t : CostTracker fl) (p : Pod)
        → IsCountable p
        → Any (λ q. q ≡ p) running
        → IsCosted (update_costs fl has_db get_node now (ok running) t).0 p
    unfolding get_pod_cost
    listed-IsCosted now running t p countable at =
        All-any _ running p (update_costs-present fl has_db get_node nodes now running t) at
          countable

    all-IsCosted :
        (now : Time) (running : List Pod) (t : CostTracker fl) (pods : List Pod)
        → All IsCountable pods
        → All (λ p. Any (λ q. q ≡ p) running) pods
        → All (IsCosted (update_costs fl has_db get_node now (ok running) t).0) pods
    all-IsCosted now running t [] _ _ = tt
    all-IsCosted now running t (p ∷ ps) (c, cs) (at, ats) =
        (listed-IsCosted now running t p c at, all-IsCosted now running t ps cs ats)

    -- When the cost tracker has updated its costs, could read all nodes, and its list had all the pods
    -- that match, each with GPUs that it counts, then a status counts every one of them.
    pub update_attribution_status-counts :
        (updated now : Time) (running : List Pod) (t : CostTracker fl) (api : PodsApi)
        (db : Option (CostDb fl)) (calendar : Calendar fl) (spec : CostAttributionSpec)
        (pods : List Pod)
        → get_matching_pods api spec ≡ ok pods
        → All IsCountable pods
        → All (λ p. Any (λ q. q ≡ p) running) pods
        → (status : CostAttributionStatus fl) × (update_attribution_status fl api
              (update_costs fl has_db get_node updated (ok running) t).0
              db
              calendar
              now
              spec
            ≡ ok status)
          × (status.active_pods ≡ length pods)
    update_attribution_status-counts updated now running t api db calendar spec pods answer
          countable listed =
        let t' = (update_costs fl has_db get_node updated (ok running) t).0 in
        let (status, same, _, active, _, _) =
          update_attribution_status-by_pod fl api t' db calendar now spec pods answer in
        (
          status,
          same,
          active ∙ length-costed t' pods (all-IsCosted updated running t pods countable listed),
        )
