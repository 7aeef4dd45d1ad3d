-- ===== src/Attribution/Names.antt =====
-- The costs of a status and its breakdown by pod, which goes by the name alone.
use gpuautoscaler.Prelude.{
  ◌+◌, ◌≤◌, ◌≡◌, refl, ap, ◌∙◌, pos, Option, none, some, Option-cases, inl, inr, String, str_eq,
  List, [], ◌∷◌, length, Entries, lookup, insert, lookup-insert, if◌then◌else◌, arith,
}
use gpuautoscaler.Prelude.Float.{Float64}
use gpuautoscaler.Prelude.Results.{ok}
use gpuautoscaler.Prelude.Time.{Time}
use gpuautoscaler.Kube.{Pod}
use gpuautoscaler.Budget.Spend.{PodsApi}
use gpuautoscaler.Cost.Tracker.{PodCost, CostTracker, get_pod_cost}
use gpuautoscaler.Attribution.Select.{CostAttributionSpec, get_matching_pods}
use gpuautoscaler.Attribution.Model.{CostDb, Calendar, CostAttributionStatus, PodCostInfo}
use gpuautoscaler.Attribution.Status.{
  Sums, no_sums, info_of, add_cost, sum_pods, build_detailed_breakdown, status_of,
  update_attribution_status,
}

length-insert-le {ℓ} :
    {V : Type ℓ} (es : Entries V) (k : String) (v : V) → length (insert es k v) ≤ length es + 1
unfolding insert
length-insert-le [] k v = omega arith
length-insert-le (e ∷ es) k v = ground (arith, length-insert-le es k v)

module _ (fl : Float64) where
  abbrev pub with_cost :
      String → Option (PodCost fl) → List (String × PodCost fl) → List (String × PodCost fl)
  with_cost name none rest = rest
  with_cost name (some c) rest = (name, c) ∷ rest

  -- The names and costs of the pods that the tracker has a cost for.
  abbrev pub costed : CostTracker fl → List Pod → List (String × PodCost fl)
  costed t [] = []
  costed t (p ∷ ps) = with_cost p.name (get_pod_cost fl t p.namespace p.name) (costed t ps)

  abbrev pub sum_costs : List (String × PodCost fl) → fl.F → fl.F
  sum_costs [] total = total
  sum_costs ((n, c) ∷ rest) total = sum_costs rest (fl.add total c.total_cost)

  -- The last of the costs with a name.
  abbrev pub last_named :
      String → List (String × PodCost fl) → Option (PodCostInfo fl) → Option (PodCostInfo fl)
  last_named q [] found = found
  last_named q ((n, c) ∷ rest) found =
      last_named q rest (if str_eq q n then some (info_of fl n c) else found)

  -- What a sum over the rest of the pods is, from the sums so far.
  record IsSummed (rest : List (String × PodCost fl)) (s after : Sums fl) : Type 0 where
    total : after.total_cost ≡ sum_costs rest s.total_cost
    active : after.active_pods ≡ s.active_pods + length rest
    named : (q : String) → lookup after.pod_costs q ≡ last_named q rest (lookup s.pod_costs q)
    within : length s.pod_costs ≤ s.active_pods → length after.pod_costs ≤ after.active_pods

  IsSummed-cons :
      (now : Time) (n : String) (c : PodCost fl) (rest : List (String × PodCost fl))
      (s after : Sums fl)
      → IsSummed rest (add_cost fl now n (some c) s) after
      → IsSummed ((n, c) ∷ rest) s after
  IsSummed-cons now n c rest s after h = record {
    total = h.total;
    active = omega (arith, h.active);
    named =
        λ q. h.named q ∙ ap (last_named q rest) (lookup-insert s.pod_costs n (info_of fl n c) q);
    within = λ le. h.within (omega (arith, length-insert-le s.pod_costs n (info_of fl n c)));
  }

  sum_pods-IsSummed :
      (t : CostTracker fl) (now : Time) (pods : List Pod) (s : Sums fl)
      → IsSummed (costed t pods) s (sum_pods fl t now pods s)
  unfolding sum_pods
  sum_pods-IsSummed t now [] s = record {
    total = refl;
    active = omega arith;
    named = λ q. refl;
    within = λ le. le;
  }
  sum_pods-IsSummed t now (p ∷ ps) s = elim (Option-cases (get_pod_cost fl t p.namespace p.name)) [
    | inl missing ↦ rw missing (sum_pods-IsSummed t now ps s)
    | inr (c, found) ↦ rw found (
        IsSummed-cons now p.name c (costed t ps) s _
          (sum_pods-IsSummed t now ps (add_cost fl now p.name (some c) s)))
  ]

  -- The total cost and the number of pods of a status count every matching pod that the tracker has a
  -- cost for. The breakdown has under a name the last such pod with this name, of whatever namespace, so
  -- it has at most as many entries.
  pub update_attribution_status-by_pod :
      (api : PodsApi) (t : CostTracker fl) (db : Option (CostDb fl)) (calendar : Calendar fl)
      (now : Time) (spec : CostAttributionSpec) (pods : List Pod)
      → get_matching_pods api spec ≡ ok pods
      → (status : CostAttributionStatus fl) × (update_attribution_status fl api t db calendar now
            spec
          ≡ ok status)
        × (status.total_cost ≡ sum_costs (costed t pods) (fl.of_int (pos 0)))
        × (status.active_pods ≡ length (costed t pods))
        × ((q : String)
            → lookup status.detailed_breakdown.by_pod q ≡ last_named q (costed t pods) none)
        × (length status.detailed_breakdown.by_pod ≤ status.active_pods)
  unfolding update_attribution_status build_detailed_breakdown
  update_attribution_status-by_pod api t db calendar now spec pods answer =
      let h = sum_pods-IsSummed t now pods (no_sums fl) in
      (
        status_of fl db calendar now spec (sum_pods fl t now pods (no_sums fl)),
        rw answer refl,
        h.total,
        omega (arith, h.active),
        (λ q. h.named q ∙ (unfold lookup in refl)),
        h.within (omega arith),
      )
