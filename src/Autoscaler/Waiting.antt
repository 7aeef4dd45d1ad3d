-- ===== src/Autoscaler/Waiting.antt =====
-- The pending pod that `shouldScaleUp` looks at.
use mathlib.Core.Path.{subst}
use gpuautoscaler.Prelude.{
  sym, ◌∙◌, ℕ, zero, suc, ◌≡◌, ◌↔◌, refl, ◌≤ℤ◌, ◌<ℤ◌, ltb_ℤ, some, List, [], ◌∷◌, get_elem?, All,
  All-get, ltb→lt, lt→ltb, arith, if◌then◌else◌, true, Bool-cases, inl, inr,
}
use gpuautoscaler.Prelude.Time.{Time, Duration, time_sub, time_sub-anti}
use gpuautoscaler.Kube.{Pod}
use gpuautoscaler.Autoscaler.Observe.{oldest_from}
use gpuautoscaler.Autoscaler.Decide.{waits_too_long}

-- One of the pods, and none of them is older.
abbrev pub IsOldest : List Pod → Pod → Type 0
IsOldest pods q = ((i : ℕ) × (get_elem? pods i ≡ some q)) × All (λ p. q.created ≤ℤ p.created) pods

oldest_step :
    (oldest p : Pod) (ps : List Pod)
    → oldest_from oldest (p ∷ ps)
      ≡ oldest_from (if ltb_ℤ p.created oldest.created then p else oldest) ps
unfolding oldest_from
oldest_step oldest p ps = refl

IsOldest-skip :
    (oldest p q : Pod) (ps : List Pod)
    → oldest.created ≤ℤ p.created
    → IsOldest (oldest ∷ ps) q
    → IsOldest (oldest ∷ p ∷ ps) q
IsOldest-skip oldest p q ps h ((zero, at), (le, all)) = ((0, at), (le, (omega arith, all)))
IsOldest-skip oldest p q ps h ((suc i, at), (le, all)) =
    ((suc (suc i), at), (le, (omega arith, all)))

-- `getOldestPendingPod` finds such a pod.
pub oldest_from-IsOldest :
    (oldest : Pod) (pods : List Pod) → IsOldest (oldest ∷ pods) (oldest_from oldest pods)
oldest_from-IsOldest oldest [] = unfold oldest_from in ((0, refl), (omega arith, tt))
oldest_from-IsOldest oldest (p ∷ ps) =
    let split = Bool-cases (ltb_ℤ p.created oldest.created) in
    elim split [
      | inl older ↦
          let same : oldest_from oldest (p ∷ ps) ≡ oldest_from p ps =
            oldest_step oldest p ps ∙ rw older refl in
          let ((i, at), (le, all)) = oldest_from-IsOldest p ps in
          subst (IsOldest (oldest ∷ p ∷ ps)) (sym same) ((suc i, at), (ground arith, (le, all)))
      | inr younger ↦
          let same : oldest_from oldest (p ∷ ps) ≡ oldest_from oldest ps =
            oldest_step oldest p ps ∙ rw younger refl in
          subst (IsOldest (oldest ∷ p ∷ ps)) (sym same) (
            IsOldest-skip oldest p (oldest_from oldest ps) ps (ground arith)
              (oldest_from-IsOldest oldest ps))
    ]

-- `shouldScaleUp` finds that the oldest pending pod waits too long exactly when some pending pod was
-- created longer ago than the timeout.
pub waits_too_long_iff :
    (now : Time) (timeout : Duration) (pods : List Pod)
    → (waits_too_long now timeout pods ≡ true)
      ↔ ((i : ℕ) × (p : Pod) × (get_elem? pods i ≡ some p) × (timeout <ℤ time_sub now p.created))
unfolding waits_too_long
waits_too_long_iff now timeout [] = (λ e. cc, λ (i, p, at, _). cc)
waits_too_long_iff now timeout (p ∷ ps) =
    let q = oldest_from p ps in
    let ((i, at), all) = oldest_from-IsOldest p ps in
    (
      λ h. (i, q, at, ltb→lt _ _ h),
      λ (j, x, at_x, late).
          let le = All-get (λ y. q.created ≤ℤ y.created) (p ∷ ps) j x all at_x in
          lt→ltb _ _ (omega (arith, time_sub-anti now q.created x.created le)),
    )
