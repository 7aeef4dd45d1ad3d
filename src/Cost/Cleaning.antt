-- ===== src/Cost/Cleaning.antt =====
-- Which pods the cache of the cost tracker holds after an update.
use gpuautoscaler.Prelude.{
  Bool-cases, inl, inr, ◌≡◌, refl, ap, ◌∙◌, pos, Bool, true, false, none, some, String, List, [],
  ◌∷◌, lookup, implies, if◌then◌else◌, arith,
}
use gpuautoscaler.Prelude.Float.{Float64}
use gpuautoscaler.Prelude.Results.{Result, Error, ok, err, wrapped}
use gpuautoscaler.Prelude.Time.{Time}
use gpuautoscaler.Kube.{Pod, Node}
use gpuautoscaler.Budget.Spend.{is_present}
use gpuautoscaler.Cost.Tracker.{CostTracker, Totals, cost_pods, cleaned, update_costs}
use gpuautoscaler.Cost.Active.{
  is_active, lookup-keep, costed_pod, cost_pods-step, costed_pod-IsGrown, costed_pod-active,
}

or_false : (b : Bool) → (if b then true else false) ≡ b
or_false true = refl
or_false false = refl

module _ (fl : Float64) (has_db : Bool) (get_node : String → Result Node) (now : Time) where
  cost_pods-active :
      (pods : List Pod) (s : Totals fl) (q : String)
      → is_present (lookup (cost_pods fl has_db get_node now pods s).active q)
        ≡ (if is_active q pods then true else is_present (lookup s.active q))
  unfolding cost_pods is_active
  cost_pods-active [] s q = refl
  cost_pods-active (p ∷ ps) s q =
      let ih = cost_pods-active ps (costed_pod fl get_node now has_db p s) q in
      let step = costed_pod-active fl get_node now has_db p s q in
      ap (λ t. is_present (lookup t.active q)) (cost_pods-step fl get_node now has_db p ps s)
      ∙ ih
      ∙ ground (arith, step)

  pub cost_pods-present :
      (pods : List Pod) (s : Totals fl) (q : String)
      → is_present (lookup s.tracker.pod_cost_cache q) ≡ true
      → is_present (lookup (cost_pods fl has_db get_node now pods s).tracker.pod_cost_cache q)
        ≡ true
  unfolding cost_pods
  cost_pods-present [] s q h = h
  cost_pods-present (p ∷ ps) s q h =
      ap (λ (t : Totals fl). is_present (lookup t.tracker.pod_cost_cache q))
        (cost_pods-step fl get_node now has_db p ps s)
      ∙ cost_pods-present ps (costed_pod fl get_node now has_db p s) q
          ((costed_pod-IsGrown fl get_node now has_db p s).present q h)

  unfoldable pub start : CostTracker fl → Totals fl
  start t = record {
    tracker = t;
    hourly = fl.of_int (pos 0);
    total = fl.of_int (pos 0);
    active = [];
  }

  -- The entry of a key after the cleaning.
  pub cleaned-lookup :
      (pods : List Pod) (t : CostTracker fl) (q : String)
      → lookup (cleaned fl (cost_pods fl has_db get_node now pods (start t))).pod_cost_cache q ≡ (
          if is_active q pods
          then lookup (cost_pods fl has_db get_node now pods (start t)).tracker.pod_cost_cache q
          else none)
  unfolding start lookup
  cleaned-lookup pods t q =
      let s = cost_pods fl has_db get_node now pods (start t) in
      lookup-keep (λ k. is_present (lookup s.active k)) s.tracker.pod_cost_cache q
      ∙ ap (λ b. if b then lookup s.tracker.pod_cost_cache q else none)
          (cost_pods-active pods (start t) q ∙ or_false (is_active q pods))

  -- After an update that could list the pods, the cache has no entry but those of running pods with
  -- GPUs, and a pod that goes on running keeps its entry; if they cannot be listed nothing changes.
  pub update_costs-active :
      (t : CostTracker fl) (pods : List Pod) (q : String) (e : Error)
      → let after = (update_costs fl has_db get_node now (ok pods) t).0 in
        (lookup after.pod_cost_cache q
          ≡ (if is_active q pods then lookup after.pod_cost_cache q else none))
        × (implies (is_active q pods) (
              implies
                (is_present (lookup t.pod_cost_cache q))
                (is_present (lookup after.pod_cost_cache q)))
            ≡ true)
        × (update_costs fl has_db get_node now (err e) t
            ≡ (t, some (wrapped "failed to list pods" e)))
  unfolding update_costs start
  update_costs-active t pods q e =
      let read = cleaned-lookup pods t q in
      (
        elim (Bool-cases (is_active q pods)) [
          | inl on ↦ rw on refl
          | inr off ↦ rw off (read ∙ rw off refl)
        ],
        elim (Bool-cases (is_active q pods)) [
          | inr off ↦ rw off refl
          | inl on ↦ elim (Bool-cases (is_present (lookup t.pod_cost_cache q))) [
            | inr absent ↦ rw (on, absent) refl
            | inl present ↦
                rw (on, present)
                  (ap is_present read ∙ rw on (cost_pods-present pods (start t) q present))
          ]
        ],
        refl,
      )
