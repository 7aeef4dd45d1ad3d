-- ===== src/Webhook/Strategy.antt =====
-- The strategy that `selectOptimizationStrategy` selects.
use gpuautoscaler.Prelude.{
  ◌*◌, ◌^◌, implies, ◌≡◌, refl, ℤ, pos, eqb_ℤ, ltb_ℤ, Bool, true, false, Bool-cases, none, inl, inr,
  map_get, String, str_eq, if◌then◌else◌,
}
use gpuautoscaler.Kube.{Pod, text_at}
use gpuautoscaler.Sharing.Mps.{workload_type}
use gpuautoscaler.Sharing.Savings.{gpu_request, memory_request}
use gpuautoscaler.Webhook.Handler.{
  GpuOptimizationWebhook, sharing_mode, strategy_of, select_optimization_strategy,
}

-- What each strategy is meant for: MIG for one GPU and less than 20 GB of memory, MPS for inference and
-- time slicing for development and batch jobs, these two also for pods that ask to share, each only if
-- it is enabled.
abbrev pub suits : GpuOptimizationWebhook → ℤ → ℤ → String → Bool → String → Bool
suits w gpus memory kind shares s =
    if str_eq s "mig"
    then (if w.enable_mig
        then (if eqb_ℤ gpus (pos 1) then ltb_ℤ memory (pos (20 * 2 ^ 30)) else false)
        else false)
    else if str_eq s "mps"
    then (if w.enable_mps then (if str_eq kind "inference" then true else shares) else false)
    else if str_eq s "timeslicing"
    then (if w.enable_ts
        then (if (if str_eq kind "development" then true else str_eq kind "batch")
            then true
            else shares)
        else false)
    else str_eq s "exclusive"

by_kind :
    (on kind shares : Bool)
    → (if on then kind else false) ≡ true
    → (if on then (if kind then true else shares) else false) ≡ true
by_kind true true shares h = refl
by_kind true false shares h = cc
by_kind false kind shares h = h

by_sharing :
    (on kind shares : Bool)
    → (if shares then on else false) ≡ true
    → (if on then (if kind then true else shares) else false) ≡ true
by_sharing true true true h = refl
by_sharing true false true h = refl
by_sharing false kind true h = h
by_sharing on kind false h = cc

module _ (w : GpuOptimizationWebhook) (gpus memory : ℤ) (kind : String) (shares : Bool) where
  suits-if :
      (b : Bool) (x y : String)
      → (b ≡ true → suits w gpus memory kind shares x ≡ true)
      → suits w gpus memory kind shares y ≡ true
      → suits w gpus memory kind shares (if b then x else y) ≡ true
  suits-if true x y h _ = h refl
  suits-if false x y _ h = h

  strategy_of-suits : suits w gpus memory kind shares (strategy_of w gpus memory kind shares) ≡ true
  strategy_of-suits =
      let inference = str_eq kind "inference" in
      let jobs = if str_eq kind "development" then true else str_eq kind "batch" in
      let small =
        if w.enable_mig
        then (if eqb_ℤ gpus (pos 1) then ltb_ℤ memory (pos (20 * 2 ^ 30)) else false)
        else false in
      let on_mps = if w.enable_mps then inference else false in
      let on_ts = if w.enable_ts then jobs else false in
      let shared_mps = if shares then w.enable_mps else false in
      let shared_ts = if shares then w.enable_ts else false in
      let last = if shared_ts then "timeslicing" else "exclusive" in
      let fourth = if shared_mps then "mps" else last in
      let third = if on_ts then "timeslicing" else fourth in
      let second = if on_mps then "mps" else third in
      suits-if (str_eq kind "training") "exclusive" (if small then "mig" else second) (λ _. refl)
        (suits-if small "mig" second (λ h. h)
          (suits-if on_mps "mps" third (by_kind w.enable_mps inference shares) (
            suits-if on_ts "timeslicing" fourth (by_kind w.enable_ts jobs shares) (
              suits-if shared_mps "mps" last (by_sharing w.enable_mps inference shares) (
                suits-if shared_ts "timeslicing" "exclusive" (by_sharing w.enable_ts jobs shares)
                  refl)))))

  strategy_of-training :
      implies (str_eq kind "training") (str_eq (strategy_of w gpus memory kind shares) "exclusive")
      ≡ true
  strategy_of-training = elim (Bool-cases (str_eq kind "training")) [
    | inl e ↦ rw e refl
    | inr e ↦ rw e refl
  ]

module _ (w : GpuOptimizationWebhook) (pod : Pod) where
  abbrev pub strategy_for : String
  strategy_for =
      strategy_of w (gpu_request (pos 0) pod.containers) (memory_request (pos 0) pod.containers)
        (text_at workload_type pod.labels)
        (str_eq (text_at "gpu-autoscaler.io/sharing" pod.annotations) "enabled")

  select-silent :
      map_get sharing_mode pod.annotations ≡ none
      → select_optimization_strategy w pod ≡ strategy_for
  unfolding select_optimization_strategy
  select-silent silent = rw (select_optimization_strategy, silent) refl

  -- Without an annotation that names a strategy, the one selected suits the requests, the kind and the
  -- annotations of the pod and is enabled, or it is exclusive access, which every training workload has.
  pub select_optimization_strategy-suits :
      map_get sharing_mode pod.annotations ≡ none
      → (suits w
            (gpu_request (pos 0) pod.containers)
            (memory_request (pos 0) pod.containers)
            (text_at workload_type pod.labels)
            (str_eq (text_at "gpu-autoscaler.io/sharing" pod.annotations) "enabled")
            (select_optimization_strategy w pod)
          ≡ true)
        × (implies
              (str_eq (text_at workload_type pod.labels) "training")
              (str_eq (select_optimization_strategy w pod) "exclusive")
            ≡ true)
  select_optimization_strategy-suits silent = rw (select-silent silent) (
    strategy_of-suits w (gpu_request (pos 0) pod.containers) (memory_request (pos 0) pod.containers)
        (text_at workload_type pod.labels)
        (str_eq (text_at "gpu-autoscaler.io/sharing" pod.annotations) "enabled"),
    strategy_of-training w (gpu_request (pos 0) pod.containers)
        (memory_request (pos 0) pod.containers) (text_at workload_type pod.labels)
        (str_eq (text_at "gpu-autoscaler.io/sharing" pod.annotations) "enabled"),
  )
