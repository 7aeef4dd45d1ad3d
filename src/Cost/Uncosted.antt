-- ===== src/Cost/Uncosted.antt =====
-- Pods that use GPUs by `isGPUPod` and have none by `getGPUCount`.
use gpuautoscaler.Prelude.{
  ◌≡◌, refl, sym, ap, ◌∙◌, pos, Bool, Bool-cases, none, inl, inr, String, str_eq, eq_iff, List, [],
  ◌∷◌, All, Entries, Entry, lookup, keep,
}
use gpuautoscaler.Prelude.Float.{Float64}
use gpuautoscaler.Prelude.Results.{Result, ok, err, message}
use gpuautoscaler.Prelude.Time.{Time}
use gpuautoscaler.Kube.{Pod, Node}
use gpuautoscaler.Budget.Spend.{costs_gpu, is_present}
use gpuautoscaler.Cost.Labels.{get_gpu_count}
use gpuautoscaler.Cost.Tracker.{
  pod_key, PodCost, CostTracker, calculate_pod_cost, Totals, cost_pods, update_costs,
}
use gpuautoscaler.Cost.Active.{lookup-keep, costed_pod, cost_pods-step, costed_pod-IsGrown}

-- A pod with this key has no GPU that `getGPUCount` counts.
abbrev pub IsUncounted : String → Pod → Type 0
IsUncounted q p = pod_key p ≡ q → get_gpu_count p.containers (pos 0) ≡ pos 0

module _ (fl : Float64) (has_db : Bool) (get_node : String → Result Node) (now : Time) where
  calculate_pod_cost-fails :
      (p : Pod) (t : CostTracker fl)
      → lookup t.pod_cost_cache (pod_key p) ≡ none
      → get_gpu_count p.containers (pos 0) ≡ pos 0
      → calculate_pod_cost fl get_node now p t ≡ (t, err (message "pod has no GPUs"))
  unfolding calculate_pod_cost
  calculate_pod_cost-fails p t missing count = rw (calculate_pod_cost, missing, count) refl

  costed_pod-none :
      (p : Pod) (s : Totals fl) (q : String)
      → lookup s.tracker.pod_cost_cache q ≡ none
      → IsUncounted q p
      → lookup (costed_pod fl get_node now has_db p s).tracker.pod_cost_cache q ≡ none
  unfolding costed_pod
  costed_pod-none p s q missing uncounted = elim (Bool-cases (str_eq q (pod_key p))) [
    | inr other ↦ (costed_pod-IsGrown fl get_node now has_db p s).others q other ∙ missing
    | inl same ↦
        let name : q ≡ pod_key p = (eq_iff q (pod_key p)).0 same in
        let fails =
          calculate_pod_cost-fails p s.tracker
            (ap (lookup s.tracker.pod_cost_cache) (sym name) ∙ missing) (uncounted (sym name)) in
        elim (Bool-cases (costs_gpu p.containers)) [
          | inl gpu ↦ rw (gpu, fails) missing
          | inr without ↦ rw without missing
        ]
  ]

  cost_pods-none :
      (pods : List Pod) (s : Totals fl) (q : String)
      → lookup s.tracker.pod_cost_cache q ≡ none
      → All (IsUncounted q) pods
      → lookup (cost_pods fl has_db get_node now pods s).tracker.pod_cost_cache q ≡ none
  unfolding cost_pods
  cost_pods-none [] s q missing _ = missing
  cost_pods-none (p ∷ ps) s q missing (h, hs) =
      ap (λ (t : Totals fl). lookup t.tracker.pod_cost_cache q)
        (cost_pods-step fl get_node now has_db p ps s)
      ∙ cost_pods-none ps (costed_pod fl get_node now has_db p s) q
          (costed_pod-none p s q missing h) hs

  keep-none :
      (f : String → Bool) (es : Entries (PodCost fl)) (q : String)
      → lookup es q ≡ none
      → lookup (keep (λ (e : Entry (PodCost fl)). f e.key) es) q ≡ none
  keep-none f es q missing = elim (Bool-cases (f q)) [
    | inl kept ↦ lookup-keep f es q ∙ rw kept missing
    | inr dropped ↦ lookup-keep f es q ∙ rw dropped refl
  ]

  -- An update gives a key without an entry no cost, when `getGPUCount` counts no GPU for the listed pods
  -- with this key, even if `isGPUPod` takes them for pods with GPUs.
  pub update_costs-none :
      (pods : List Pod) (t : CostTracker fl) (q : String)
      → lookup t.pod_cost_cache q ≡ none
      → All (IsUncounted q) pods
      → lookup (update_costs fl has_db get_node now (ok pods) t).0.pod_cost_cache q ≡ none
  unfolding update_costs
  update_costs-none pods t q missing h =
      let s = cost_pods fl has_db get_node now pods (record {
        tracker = t;
        hourly = fl.of_int (pos 0);
        total = fl.of_int (pos 0);
        active = [];
      }) in
      keep-none (λ k. is_present (lookup s.active k)) s.tracker.pod_cost_cache q
        (cost_pods-none pods _ q missing h)
