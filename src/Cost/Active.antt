-- ===== src/Cost/Active.antt =====
-- The cache of the cost tracker after an update.
use gpuautoscaler.Prelude.{
  ◌≡◌, refl, ap, ◌∙◌, ℤ, pos, eqb_ℤ, Bool, true, false, Bool-cases, Option, none, some, inl, inr,
  String, str_eq, eq_iff, List, [], ◌∷◌, keep, Entries, Entry, lookup, insert, lookup-insert,
  if◌then◌else◌, arith,
}
use gpuautoscaler.Prelude.Float.{Float64}
use gpuautoscaler.Prelude.Results.{Result, ok, err}
use gpuautoscaler.Prelude.Time.{Time}
use gpuautoscaler.Kube.{Pod, Node}
use gpuautoscaler.Budget.Spend.{costs_gpu, is_present}
use gpuautoscaler.Cost.Labels.{get_gpu_count}
use gpuautoscaler.Cost.Tracker.{
  pod_key, PodCost, CostTracker, continued, priced_on, cost_from, calculate_pod_cost, Totals, added,
  cost_pods,
}

-- Some pod of the list has the key and uses GPUs.
unfoldable pub is_active : String → List Pod → Bool
is_active q [] = false
is_active q (p ∷ ps) =
    let rest = is_active q ps in
    if costs_gpu p.containers then (if str_eq q (pod_key p) then true else rest) else rest

pub lookup-keep {ℓ} :
    {V : Type ℓ} (f : String → Bool) (es : Entries V) (q : String)
    → lookup (keep (λ (e : Entry V). f e.key) es) q ≡ (if f q then lookup es q else none)
unfolding lookup
lookup-keep f [] q = ground arith
lookup-keep f (e ∷ es) q =
    let ih = lookup-keep f es q in
    elim (Bool-cases (str_eq q e.key)) [
      | inl same ↦
          let like : f q ≡ f e.key = ap f ((eq_iff q e.key).0 same) in
          elim (Bool-cases (f e.key)) [
            | inl kept ↦ rw (kept, same, like ∙ kept) refl
            | inr dropped ↦ rw (dropped, ih, like ∙ dropped) refl
          ]
      | inr other ↦ elim (Bool-cases (f e.key)) [
        | inl kept ↦ rw (kept, other, ih) refl
        | inr dropped ↦ rw (dropped, other, ih) refl
      ]
    ]

insert-present {ℓ} :
    {V : Type ℓ} (es : Entries V) (k q : String) (v : V)
    → is_present (lookup es q) ≡ true
    → is_present (lookup (insert es k v) q) ≡ true
insert-present es k q v h = ground (arith, lookup-insert es k v q)

module _ (fl : Float64) where
  -- How a step for the pod with a key changes the cache: no other entry, and it removes none.
  pub record IsGrown (k : String) (before after : Entries (PodCost fl)) : Type 0 where
    pub others : (q : String) → str_eq q k ≡ false → lookup after q ≡ lookup before q
    pub present :
        (q : String) → is_present (lookup before q) ≡ true → is_present (lookup after q) ≡ true

  same-IsGrown : (k : String) (es : Entries (PodCost fl)) → IsGrown k es es
  same-IsGrown k es = record { others = λ q _. refl; present = λ q h. h }

  insert-IsGrown :
      (k : String) (before es : Entries (PodCost fl)) (c : PodCost fl)
      → IsGrown k before es
      → IsGrown k before (insert es k c)
  insert-IsGrown k before es c g = record {
    others = λ q other. rw (lookup-insert es k c q, other) (g.others q other);
    present = λ q h. insert-present es k q c (g.present q h);
  }

  module _ (get_node : String → Result Node) (now : Time) where
    priced-IsGrown :
        (node : Result Node) (pod : Pod) (count : ℤ) (t : CostTracker fl)
        → (priced_on fl node pod count now t).0.pod_cost_cache ≡ t.pod_cost_cache
    priced-IsGrown (err e) pod count t = refl
    priced-IsGrown (ok node) pod count t = refl

    cost_from-IsGrown :
        (pod : Pod) (cached : Option (PodCost fl)) (t : CostTracker fl)
        → IsGrown
            (pod_key pod)
            t.pod_cost_cache
            (cost_from fl get_node now pod cached t).0.pod_cost_cache
    cost_from-IsGrown pod (some c) t =
        insert-IsGrown (pod_key pod) t.pod_cost_cache t.pod_cost_cache (continued fl c now)
          (same-IsGrown (pod_key pod) t.pod_cost_cache)
    cost_from-IsGrown pod none t =
        elim (Bool-cases (eqb_ℤ (get_gpu_count pod.containers (pos 0)) (pos 0))) [
          | inl zero_gpus ↦ rw zero_gpus (same-IsGrown (pod_key pod) t.pod_cost_cache)
          | inr some_gpus ↦
              rw
                (
                  some_gpus,
                  priced-IsGrown (get_node pod.node_name) pod (get_gpu_count pod.containers (pos 0))
                      t,
                )
                (same-IsGrown (pod_key pod) t.pod_cost_cache)
        ]

    added-IsGrown :
        (has_db : Bool) (pod : Pod) (s : Totals fl) (t : CostTracker fl)
        (answer : Result (PodCost fl))
        → IsGrown (pod_key pod) s.tracker.pod_cost_cache t.pod_cost_cache
        → IsGrown
            (pod_key pod)
            s.tracker.pod_cost_cache
            (added fl has_db pod s (t, answer)).tracker.pod_cost_cache
    added-IsGrown has_db pod s t (err e) g = g
    added-IsGrown has_db pod s t (ok c) g =
        insert-IsGrown (pod_key pod) s.tracker.pod_cost_cache t.pod_cost_cache c g

    added-active :
        (has_db : Bool) (pod : Pod) (s : Totals fl) (t : CostTracker fl)
        (answer : Result (PodCost fl))
        → (added fl has_db pod s (t, answer)).active ≡ insert s.active (pod_key pod) true
    added-active has_db pod s t (err e) = refl
    added-active has_db pod s t (ok c) = refl

    -- One pod of the loop, as it changes the cache and the set of active keys.
    unfoldable pub costed_pod : Bool → Pod → Totals fl → Totals fl
    costed_pod has_db p s =
        if costs_gpu p.containers
        then added fl has_db p s (calculate_pod_cost fl get_node now p s.tracker)
        else s

    pub cost_pods-step :
        (has_db : Bool) (p : Pod) (ps : List Pod) (s : Totals fl)
        → cost_pods fl has_db get_node now (p ∷ ps) s
          ≡ cost_pods fl has_db get_node now ps (costed_pod has_db p s)
    unfolding cost_pods costed_pod
    cost_pods-step has_db p ps s = refl

    pub costed_pod-IsGrown :
        (has_db : Bool) (p : Pod) (s : Totals fl)
        → IsGrown
            (pod_key p)
            s.tracker.pod_cost_cache
            (costed_pod has_db p s).tracker.pod_cost_cache
    unfolding costed_pod calculate_pod_cost
    costed_pod-IsGrown has_db p s = elim (Bool-cases (costs_gpu p.containers)) [
      | inl gpu ↦
          let (t, answer) = calculate_pod_cost fl get_node now p s.tracker in
          rw gpu (
            added-IsGrown has_db p s t answer
              (cost_from-IsGrown p (lookup s.tracker.pod_cost_cache (pod_key p)) s.tracker))
      | inr without ↦ rw without (same-IsGrown (pod_key p) s.tracker.pod_cost_cache)
    ]

    pub costed_pod-active :
        (has_db : Bool) (p : Pod) (s : Totals fl) (q : String)
        → is_present (lookup (costed_pod has_db p s).active q) ≡ (
            if costs_gpu p.containers
            then (if str_eq q (pod_key p) then true else is_present (lookup s.active q))
            else is_present (lookup s.active q))
    unfolding costed_pod
    costed_pod-active has_db p s q = elim (Bool-cases (costs_gpu p.containers)) [
      | inl gpu ↦
          let (t, answer) = calculate_pod_cost fl get_node now p s.tracker in
          rw (gpu, added-active has_db p s t answer)
            (ground (arith, lookup-insert s.active (pod_key p) true q))
      | inr without ↦ rw without refl
    ]
