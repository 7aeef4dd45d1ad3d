-- ===== src/Sharing/Kept.antt =====
-- What the conversions to MPS and to time slicing do to the requests of a pod.
use mathlib.Core.Path.{subst}
use gpuautoscaler.Prelude.{
  ◌≡◌, ◌≢◌, refl, sym, ◌∙◌, ℤ, pos, Bool, true, false, Option, none, some, Option-cases, inl, inr,
  List, [], ◌∷◌, GoMap, Entries, map_get, lookup, insert, lookup-insert, String, if◌then◌else◌,
  arith,
}
use gpuautoscaler.Kube.{Pod, Container, gpu_resource}
use gpuautoscaler.Sharing.Mig.{asked, plus_asked, consed}
use gpuautoscaler.Sharing.Mps.{
  MpsConfig, keep_asked, keep_requests, with_shared, convert_pod_to_mps,
}
use gpuautoscaler.Sharing.TimeSlicing.{convert_pod_to_time_slicing}
use gpuautoscaler.Sharing.Savings.{gpu_request}

-- The container asks for GPUs and has no map of limits.
abbrev pub lacks_limits : Option ℤ → GoMap ℤ → Bool
lacks_limits none limits = false
lacks_limits (some n) none = true
lacks_limits (some n) (some limits) = false

unfoldable pub any_unlimited : List Container → Bool
unfolding lookup
any_unlimited [] = false
any_unlimited (c ∷ cs) =
    let rest = any_unlimited cs in if lacks_limits (asked c) c.limits then true else rest

-- `extra` leaves the entry for whole GPUs alone.
abbrev KeepsGpus : (ℤ → Entries ℤ → Entries ℤ) → Type 0
KeepsGpus extra =
    (n : ℤ) (es : Entries ℤ) → lookup (extra n es) gpu_resource ≡ lookup es gpu_resource

-- Either some container lacks its limits and the result is a panic, or the result asks for as many GPUs.
abbrev pub IsOutcome : List Container → Option (List Container) → Type 0
IsOutcome cs none = any_unlimited cs ≡ true
IsOutcome cs (some ds) =
    (any_unlimited cs ≡ false) × ((total : ℤ) → gpu_request total ds ≡ gpu_request total cs)

module _ (extra : ℤ → Entries ℤ → Entries ℤ) (keeps : KeepsGpus extra) where
  -- One container.
  abbrev IsKept : Container → Option Container → Type 0
  IsKept c none = lacks_limits (asked c) c.limits ≡ true
  IsKept c (some d) = (lacks_limits (asked c) c.limits ≡ false) × (asked d ≡ asked c)

  limited-asked :
      (requests limits : Entries ℤ) (n : ℤ)
      → lookup (extra n (insert requests gpu_resource n)) gpu_resource ≡ some n
  limited-asked requests limits n =
      keeps n (insert requests gpu_resource n) ∙ lookup-insert requests gpu_resource n gpu_resource

  keep_asked-IsKept :
      (requests limits : GoMap ℤ) (a : Option ℤ)
      → map_get gpu_resource requests ≡ a
      → let c : Container = record { requests = requests; limits = limits } in
        IsKept c (keep_asked extra a c)
  keep_asked-IsKept requests limits none e = rw e (refl, refl)
  keep_asked-IsKept none limits (some n) e = absurd (none≢some e)
    where
      none≢some : {m : ℤ} → none ≢ some m
      none≢some h = cc
  keep_asked-IsKept (some requests) none (some n) e = rw e refl
  keep_asked-IsKept (some requests) (some limits) (some n) e =
      rw e (refl, limited-asked requests limits n)

  consed-IsOutcome :
      (c : Container) (d : Option Container) (cs : List Container) (ds : Option (List Container))
      → IsKept c d
      → IsOutcome cs ds
      → IsOutcome (c ∷ cs) (consed d ds)
  unfolding any_unlimited gpu_request
  consed-IsOutcome c none cs ds k o = rw k refl
  consed-IsOutcome c (some d) cs none (k, same) o = rw (k, o) refl
  consed-IsOutcome c (some d) cs (some ds) (k, same) (o, total) =
      (rw (k, o) refl, λ t. rw (same, total (plus_asked t (asked c))) refl)

  keep_requests-IsOutcome : (cs : List Container) → IsOutcome cs (keep_requests extra cs)
  unfolding keep_requests any_unlimited
  keep_requests-IsOutcome [] = (refl, λ t. refl)
  keep_requests-IsOutcome (c ∷ cs) =
      consed-IsOutcome c (keep_asked extra (asked c) c) cs (keep_requests extra cs)
        (keep_asked-IsKept c.requests c.limits (asked c) refl) (keep_requests-IsOutcome cs)

with_shared-keeps : KeepsGpus with_shared
with_shared-keeps n es =
    ground (arith, lookup-insert es "nvidia.com/gpu.shared" (pos 1) gpu_resource)

abbrev pub containers_of : Option Pod → Option (List Container)
containers_of none = none
containers_of (some pod) = some pod.containers

mps-containers :
    (decimal : ℤ → String) (pod : Pod) (config : MpsConfig)
    → containers_of (convert_pod_to_mps decimal pod config)
      ≡ keep_requests with_shared pod.containers
unfolding convert_pod_to_mps
mps-containers decimal pod config = elim (Option-cases (keep_requests with_shared pod.containers)) [
  | inl e ↦ rw (convert_pod_to_mps, e) refl
  | inr (cs, e) ↦ rw (convert_pod_to_mps, e) refl
]

slices-containers :
    (decimal : ℤ → String) (pod : Pod)
    → containers_of (convert_pod_to_time_slicing decimal pod)
      ≡ keep_requests (λ n es. es) pod.containers
unfolding convert_pod_to_time_slicing
slices-containers decimal pod = elim (Option-cases (keep_requests (λ n es. es) pod.containers)) [
  | inl e ↦ rw (convert_pod_to_time_slicing, e) refl
  | inr (cs, e) ↦ rw (convert_pod_to_time_slicing, e) refl
]

-- Both conversions panic exactly if some container asks for GPUs and has no map of limits, and otherwise
-- the pod asks for as many whole GPUs afterwards as before.
pub convert_pod-IsOutcome :
    (decimal : ℤ → String) (pod : Pod) (config : MpsConfig)
    → IsOutcome pod.containers (containers_of (convert_pod_to_mps decimal pod config))
      × IsOutcome pod.containers (containers_of (convert_pod_to_time_slicing decimal pod))
convert_pod-IsOutcome decimal pod config = (
  subst (IsOutcome pod.containers) (sym (mps-containers decimal pod config))
      (keep_requests-IsOutcome with_shared with_shared-keeps pod.containers),
  subst (IsOutcome pod.containers) (sym (slices-containers decimal pod))
      (keep_requests-IsOutcome (λ n es. es) (λ n es. refl) pod.containers),
)
