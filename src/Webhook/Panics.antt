-- ===== src/Webhook/Panics.antt =====
-- The timestamp of an optimization, which no caller of the webhook puts into the context.
use gpuautoscaler.Prelude.{
  implies, ◌≡◌, refl, ℤ, Bool, true, false, Bool-cases, Option, none, some, inl, inr, String,
  str_eq, eq_iff, if◌then◌else◌,
}
use gpuautoscaler.Prelude.Results.{Result, Error, ok, err}
use gpuautoscaler.Kube.{Pod, text_at}
use gpuautoscaler.Sharing.Mig.{convert_pod_to_mig, MigProfile}
use gpuautoscaler.Sharing.Mps.{convert_pod_to_mps, default_mps_config}
use gpuautoscaler.Sharing.TimeSlicing.{convert_pod_to_time_slicing}
use gpuautoscaler.Webhook.Handler.{
  GpuOptimizationWebhook, Response, allowed, patched, has_gpu_request, and_stamped, with_profile,
  apply_mig_optimization, apply_mps_optimization, apply_time_slicing_optimization, concluded,
  untouched, optimized, select_optimization_strategy, handle,
}

abbrev pub is_patched : Option Response → Bool
is_patched (some (patched pod)) = true
is_patched _ = false

abbrev pub is_panic : Option Response → Bool
is_panic none = true
is_panic (some r) = false

unpatched-if :
    (b : Bool) (x y : Option Response)
    → is_patched x ≡ false
    → is_patched y ≡ false
    → is_patched (if b then x else y) ≡ false
unpatched-if true x y h _ = h
unpatched-if false x y _ h = h

and_stamped-none :
    (strategy : String) (converted : Option Pod) → and_stamped strategy none converted ≡ none
and_stamped-none strategy none = refl
and_stamped-none strategy (some pod) = refl

module _ (decimal : ℤ → String) (pod : Pod) where
  with_profile-unpatched :
      (marshal : Option Error) (p : Option MigProfile)
      → is_patched (concluded marshal (with_profile decimal none pod p)) ≡ false
  with_profile-unpatched marshal none = refl
  with_profile-unpatched marshal (some p) =
      rw (and_stamped-none "mig" (convert_pod_to_mig decimal pod p)) refl

  mps-panics : apply_mps_optimization decimal none pod ≡ none
  unfolding apply_mps_optimization
  mps-panics = and_stamped-none "mps" (convert_pod_to_mps decimal pod default_mps_config)

  slices-panics : apply_time_slicing_optimization decimal none pod ≡ none
  unfolding apply_time_slicing_optimization
  slices-panics = and_stamped-none "timeslicing" (convert_pod_to_time_slicing decimal pod)

  mig-unpatched :
      (marshal : Option Error)
      → is_patched (concluded marshal (apply_mig_optimization decimal none pod)) ≡ false
  unfolding apply_mig_optimization
  mig-unpatched marshal = with_profile-unpatched marshal _

  mps-unpatched :
      (marshal : Option Error)
      → is_patched (concluded marshal (apply_mps_optimization decimal none pod)) ≡ false
  mps-unpatched marshal = rw mps-panics refl

  slices-unpatched :
      (marshal : Option Error)
      → is_patched (concluded marshal (apply_time_slicing_optimization decimal none pod)) ≡ false
  slices-unpatched marshal = rw slices-panics refl

  optimized-unpatched :
      (w : GpuOptimizationWebhook) (marshal : Option Error) (strategy : String)
      → is_patched (optimized w decimal none marshal strategy pod) ≡ false
  unfolding optimized
  optimized-unpatched w marshal strategy =
      unpatched-if (str_eq strategy "mig") _ _
        (unpatched-if w.enable_mig _ untouched (mig-unpatched marshal) refl)
        (unpatched-if (str_eq strategy "mps") _ _
          (unpatched-if w.enable_mps _ untouched (mps-unpatched marshal) refl)
          (unpatched-if (str_eq strategy "timeslicing") _ untouched
            (unpatched-if w.enable_ts _ untouched (slices-unpatched marshal) refl) refl))

  optimized-panics :
      (w : GpuOptimizationWebhook) (marshal : Option Error) (strategy : String)
      → implies
          (if str_eq strategy "mps" then w.enable_mps else false)
          (is_panic (optimized w decimal none marshal strategy pod))
        ≡ true
  unfolding optimized
  optimized-panics w marshal strategy = elim (Bool-cases (str_eq strategy "mps")) [
    | inr other ↦ rw other refl
    | inl mps ↦
        let same = (eq_iff strategy "mps").0 mps in
        elim (Bool-cases w.enable_mps) [
          | inr off ↦ rw (mps, off) refl
          | inl on ↦ rw (same, on, mps-panics) refl
        ]
  ]

  admitted-panics :
      (w : GpuOptimizationWebhook) (marshal : Option Error) (strategy : String)
      (asks opted_out : Bool)
      → implies
          (if asks
            then (if opted_out
                then false
                else if str_eq strategy "mps"
                then w.enable_mps
                else false)
            else false)
          (is_panic (
            if asks
            then (if opted_out
                then some (allowed "optimization disabled")
                else optimized w decimal none marshal strategy pod)
            else some (allowed "no GPU requests")))
        ≡ true
  admitted-panics w marshal strategy false opted_out = refl
  admitted-panics w marshal strategy true true = refl
  admitted-panics w marshal strategy true false = optimized-panics w marshal strategy

-- A request is taken for MPS, and it is enabled.
abbrev pub goes_to_mps : GpuOptimizationWebhook → Pod → Bool
goes_to_mps w pod =
    if has_gpu_request pod.containers
    then (if str_eq (text_at "gpu-autoscaler.io/optimize" pod.annotations) "false"
        then false
        else if str_eq (select_optimization_strategy w pod) "mps"
        then w.enable_mps
        else false)
    else false

-- With a context that has no value under "timestamp", as every context of the program, no admission
-- request is marshalled with a patch, and one for a pod that goes to MPS panics.
pub handle-unpatched :
    (w : GpuOptimizationWebhook) (decimal : ℤ → String) (marshal : Option Error)
    (decoded : Result Pod) (pod : Pod)
    → (is_patched (handle w decimal none marshal decoded) ≡ false)
      × (implies (goes_to_mps w pod) (is_panic (handle w decimal none marshal (ok pod))) ≡ true)
unfolding handle optimized
handle-unpatched w decimal marshal decoded pod = (
  unpatched decoded,
  admitted-panics decimal pod w marshal (select_optimization_strategy w pod)
      (has_gpu_request pod.containers)
      (str_eq (text_at "gpu-autoscaler.io/optimize" pod.annotations) "false"),
)
  where
    unpatched : (d : Result Pod) → is_patched (handle w decimal none marshal d) ≡ false
    unpatched (err e) = refl
    unpatched (ok p) =
        unpatched-if (has_gpu_request p.containers) _ _
          (unpatched-if (str_eq (text_at "gpu-autoscaler.io/optimize" p.annotations) "false") _ _
            refl (optimized-unpatched decimal p w marshal (select_optimization_strategy w p)))
          refl
