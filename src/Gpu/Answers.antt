-- ===== src/Gpu/Answers.antt =====
-- What a reconciliation of a pod answers on each of its branches.
use gpuautoscaler.Prelude.{
  ◌*◌, ◌≡◌, ◌≢◌, ◌⊎◌, refl, sym, ◌∙◌, pos, true, false, Bool-cases, Option, inl, inr, none, some,
  str_eq, eq_iff, List, [], keep, keep-All, All, All-mono, ltb_ℤ,
}
use mathlib.Core.Bool.{false≢true}
use gpuautoscaler.Prelude.Float.{Float64}
use gpuautoscaler.Prelude.Results.{Result, Error, ok, err}
use gpuautoscaler.Prelude.Time.{Time, time_sub, minute}
use gpuautoscaler.Kube.{Pod, is_running, text_at}
use gpuautoscaler.Metrics.Model.{GpuMetrics, WasteMetrics}
use gpuautoscaler.Gpu.Controller.{
  reconcile_interval, Outside, has_gpu_request, analyze_gpu_utilization, is_opportunity,
  kept_wastes, runs_long_enough, is_examined, check_optimization_opportunities, Reconciled,
  after_analysis, stopped, found, failed, not_found, reconcile,
}

-- The pod has not opted out, and has been running for five minutes.
pub record IsExamined (now : Time) (pod : Pod) : Type 0 where
  pub shares : text_at "gpu-autoscaler.io/sharing" pod.annotations ≢ "disabled"
  pub runs : is_running pod.phase ≡ true
  pub since : Time
  pub started : pod.start_time ≡ some since
  pub long_enough : ltb_ℤ (time_sub now since) (pos (5 * minute)) ≡ false

is_examined-since :
    (now : Time) (start : Option Time)
    → runs_long_enough now start ≡ true
    → (t : Time) × (start ≡ some t) × (ltb_ℤ (time_sub now t) (pos (5 * minute)) ≡ false)
is_examined-since now none h = absurd (false≢true h)
is_examined-since now (some t) h = elim (Bool-cases (ltb_ℤ (time_sub now t) (pos (5 * minute)))) [
  | inl young ↦ absurd (false≢true (rw young at h))
  | inr old ↦ (t, refl, old)
]

is_examined_sound : (now : Time) (pod : Pod) → is_examined now pod ≡ true → IsExamined now pod
is_examined_sound now pod h =
    let opted_out = str_eq (text_at "gpu-autoscaler.io/sharing" pod.annotations) "disabled" in
    elim (Bool-cases opted_out) [
      | inl out ↦ absurd (false≢true (rw out at h))
      | inr shares ↦ elim (Bool-cases (is_running pod.phase)) [
        | inr idle ↦ absurd (false≢true (rw (shares, idle) at h))
        | inl runs ↦
            let (t, started, old) = is_examined-since now pod.start_time (rw (shares, runs) at h) in
            record {
              shares = λ disabled. false≢true (sym shares ∙ (eq_iff _ "disabled").1 disabled);
              runs = runs;
              since = t;
              started = started;
              long_enough = old;
            }
      ]
    ]

module _ (fl : Float64) where
  -- The waste is the pod's, and its score is above 50.
  pub record IsWasteful (pod : Pod) (w : WasteMetrics fl) : Type 0 where
    pub pod_name : w.pod_name ≡ pod.name
    pub pod_namespace : w.pod_namespace ≡ pod.namespace
    pub score : fl.lt (fl.of_int (pos 50)) w.waste_score ≡ true

  is_opportunity_sound :
      (pod : Pod) (w : WasteMetrics fl) → is_opportunity fl pod w ≡ true → IsWasteful pod w
  is_opportunity_sound pod w h = elim (Bool-cases (str_eq w.pod_name pod.name)) [
    | inr other ↦ absurd (false≢true (rw other at h))
    | inl name ↦ elim (Bool-cases (str_eq w.pod_namespace pod.namespace)) [
      | inr other ↦ absurd (false≢true (rw (name, other) at h))
      | inl namespace ↦ record {
        pod_name = (eq_iff _ pod.name).0 name;
        pod_namespace = (eq_iff _ pod.namespace).0 namespace;
        score = rw (name, namespace) at h;
      }
    ]
  ]

  -- What is recommended against is the pod's waste, and there is some only if the pod is examined.
  abbrev IsDue : Outside fl → Pod → List (WasteMetrics fl) → Type 0
  IsDue o pod ws = All (IsWasteful pod) ws × ((ws ≡ []) ⊎ IsExamined o.now pod)

  kept_wastes-IsDue :
      (o : Outside fl) (pod : Pod) (answer : Result (List (WasteMetrics fl)))
      (ws : List (WasteMetrics fl))
      → is_examined o.now pod ≡ true
      → kept_wastes fl pod answer ≡ ok ws
      → IsDue o pod ws
  kept_wastes-IsDue o pod (err e) ws examined h = cc
  kept_wastes-IsDue o pod (ok all) ws examined h =
      let same : keep (is_opportunity fl pod) all ≡ ws = cc in
      rw (← same) (
        All-mono _ (is_opportunity_sound pod) (keep-All (is_opportunity fl pod) all),
        inr (is_examined_sound o.now pod examined),
      )

  check-IsDue :
      (o : Outside fl) (pod : Pod) (ws : List (WasteMetrics fl))
      → check_optimization_opportunities fl o pod ≡ ok ws
      → IsDue o pod ws
  unfolding check_optimization_opportunities
  check-IsDue o pod ws h = elim (Bool-cases (is_examined o.now pod)) [
    | inl examined ↦ kept_wastes-IsDue o pod _ ws examined (rw examined at h)
    | inr passed ↦
        let h' = rw passed at h in let none_left : [] ≡ ws = cc in rw (← none_left) (tt, inl refl)
  ]

  -- The result of a reconciliation of a pod with GPUs.
  abbrev IsAnswer : Outside fl → Pod → Reconciled fl → Type 0
  IsAnswer o pod r =
      (r.requeue_after ≡ reconcile_interval) × (r.failure ≡ none) × IsDue o pod r.recommended

  after_analysis-IsAnswer :
      (o : Outside fl) (pod : Pod) (checked : Result (List (WasteMetrics fl)))
      (analysed : Result (List (GpuMetrics fl)))
      → ((ws : List (WasteMetrics fl)) → checked ≡ ok ws → IsDue o pod ws)
      → IsAnswer o pod (after_analysis fl checked analysed)
  after_analysis-IsAnswer o pod checked (err e) h = (refl, refl, (tt, inl refl))
  after_analysis-IsAnswer o pod (err e) (ok ms) h = (refl, refl, (tt, inl refl))
  after_analysis-IsAnswer o pod (ok ws) (ok ms) h = (refl, refl, h ws refl)

  -- A reconciliation returns an error only if the pod cannot be read for another reason than that it is
  -- gone. A pod with GPUs is looked at again after 30 seconds, whatever fails; one without never is.
  -- What is recommended is about wastes of this pod with a score above 50, and there is something only
  -- if the pod has not opted out of sharing and has been running for five minutes.
  pub reconcile-IsAnswer :
      (o : Outside fl) (pod : Pod) (e : Error)
      → (reconcile fl o not_found ≡ stopped fl none)
        × (reconcile fl o (failed e) ≡ stopped fl (some e))
        × (has_gpu_request pod ≡ false → reconcile fl o (found pod) ≡ stopped fl none)
        × (has_gpu_request pod ≡ true
            → let r = reconcile fl o (found pod) in
              (r.requeue_after ≡ reconcile_interval)
              × (r.failure ≡ none)
              × All (IsWasteful pod) r.recommended
              × ((r.recommended ≡ []) ⊎ IsExamined o.now pod))
  unfolding reconcile
  reconcile-IsAnswer o pod e = (
    refl,
    refl,
    (λ without. rw without refl),
    λ gpus. rw gpus (
        let (requeue, failure, (wasteful, examined)) =
          after_analysis-IsAnswer o pod (check_optimization_opportunities fl o pod)
            (analyze_gpu_utilization fl o pod) (check-IsDue o pod) in
        (requeue, failure, wasteful, examined)),
  )
