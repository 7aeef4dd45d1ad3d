-- ===== src/Spot/Priorities.antt =====
-- The pods that a worker deletes, and their order.
use mathlib.Core.Path.{subst}
use mathlib.Core.List.{append_assoc, append-nil, map-append, Perm, perm_middle}
use mathlib.Core.List.Perm
use gpuautoscaler.Prelude.{
  ℕ, ◌*◌, pos, ◌+ℤ◌, map, ◌≡◌, refl, sym, ap, ◌∙◌, String, str_eq, eq_iff, Bool, true, false,
  Bool-cases, inl, inr, List, [], ◌∷◌, ◌++◌, keep, Entries, if◌then◌else◌,
}
use gpuautoscaler.Prelude.Results.{ok}
use gpuautoscaler.Prelude.Time.{Time, Duration, second}
use gpuautoscaler.Kube.{Pod}
use gpuautoscaler.Spot.Evict.{
  high, medium, low, get_pod_eviction_priority, Split, put, split_pods, evict_pods, evict_in_order,
  gracefully_evict_pods, Call, delete_pod, sleep, pause,
}

-- The pods of a priority, in their order.
abbrev pub of_priority : String → List Pod → List Pod
of_priority q pods = keep (λ p. str_eq (get_pod_eviction_priority p) q) pods

data Class : String → Type 0 where
  is_high : Class high
  is_medium : Class medium
  is_low : Class low
  other :
      {q : String}
      → str_eq q high ≡ false
      → str_eq q medium ≡ false
      → str_eq q low ≡ false
      → Class q

class : (q : String) → Class q
class q = elim (Bool-cases (str_eq q high)) [
  | inl e ↦ subst Class (sym ((eq_iff q high).0 e)) is_high
  | inr not_high ↦ elim (Bool-cases (str_eq q medium)) [
    | inl e ↦ subst Class (sym ((eq_iff q medium).0 e)) is_medium
    | inr not_medium ↦ elim (Bool-cases (str_eq q low)) [
      | inl e ↦ subst Class (sym ((eq_iff q low).0 e)) is_low
      | inr not_low ↦ other not_high not_medium not_low
    ]
  ]
]

-- What the loop adds to its three lists.
abbrev joined : List Pod → Split → Split
joined ps s = record {
  high_pods = s.high_pods ++ of_priority high ps;
  medium_pods = s.medium_pods ++ of_priority medium ps;
  low_pods = s.low_pods ++ of_priority low ps;
}

put-joined :
    (q : String) (p : Pod) (ps : List Pod) (s : Split)
    → Class q
    → get_pod_eviction_priority p ≡ q
    → joined ps (put q p s) ≡ joined (p ∷ ps) s
put-joined q p ps s is_high e = rw (e, append_assoc) refl
put-joined q p ps s is_medium e = rw (e, append_assoc) refl
put-joined q p ps s is_low e = rw (e, append_assoc) refl
put-joined q p ps s (other a b c) e = rw (e, a, b, c) refl

split_pods-joined : (ps : List Pod) (s : Split) → split_pods ps s ≡ joined ps s
unfolding split_pods
split_pods-joined [] s =
    rw (append-nil s.high_pods, append-nil s.medium_pods, append-nil s.low_pods) refl
split_pods-joined (p ∷ ps) s =
    split_pods-joined ps (put (get_pod_eviction_priority p) p s)
    ∙ put-joined (get_pod_eviction_priority p) p ps s (class (get_pod_eviction_priority p)) refl

-- A deletion: how long after the start of the run, of which pod, and with how many seconds of grace.
pub record Deletion : Type 0 where
  pub after : Duration
  pub pod : Pod
  pub grace : ℕ

-- The deletions of a run, from a moment on: only a sleep takes time.
abbrev pub deletions : Duration → List Call → List Deletion
deletions now [] = []
deletions now (delete_pod p grace ∷ cs) =
    record { after = now; pod = p; grace = grace } ∷ deletions now cs
deletions now (sleep d ∷ cs) = deletions (now +ℤ d) cs

-- These pods at one moment, in their order.
abbrev pub all_at : Duration → ℕ → List Pod → List Deletion
all_at now grace ps = map (λ p. record { after = now; pod = p; grace = grace }) ps

deletions-evict :
    (now : Duration) (ps : List Pod) (grace : ℕ) (cs : List Call)
    → deletions now (evict_pods ps grace ++ cs) ≡ all_at now grace ps ++ deletions now cs
unfolding evict_pods
deletions-evict now [] grace cs = refl
deletions-evict now (p ∷ ps) grace cs =
    ap (λ ds. record { after = now; pod = p; grace = grace } ∷ ds) (deletions-evict now ps grace cs)

deletions-evict_last :
    (now : Duration) (ps : List Pod) (grace : ℕ)
    → deletions now (evict_pods ps grace) ≡ all_at now grace ps
unfolding evict_pods
deletions-evict_last now [] grace = refl
deletions-evict_last now (p ∷ ps) grace =
    ap (λ ds. record { after = now; pod = p; grace = grace } ∷ ds)
      (deletions-evict_last now ps grace)

abbrev pub pods_of : List Deletion → List Pod
pods_of ds = map (λ (d : Deletion). d.pod) ds

abbrev pub has_priority : Pod → Bool
has_priority p =
    let q = get_pod_eviction_priority p in
    if str_eq q "high" then true else if str_eq q "medium" then true else str_eq q "low"

-- Low before medium before high.
abbrev pub sorted : List Pod → List Pod
sorted ps = of_priority low ps ++ of_priority medium ps ++ of_priority high ps

sorted-step :
    (q : String) (p : Pod) (ps : List Pod)
    → Class q
    → get_pod_eviction_priority p ≡ q
    → Perm (sorted ps) (keep has_priority ps)
    → Perm (sorted (p ∷ ps)) (keep has_priority (p ∷ ps))
sorted-step q p ps is_high e h = rw e (
    Perm.trans (perm_middle (of_priority low ps ++ of_priority medium ps) (of_priority high ps))
      (Perm.cons p h))
sorted-step q p ps is_medium e h = rw e (
    Perm.trans
      (Perm.append_right (of_priority high ps)
        (perm_middle (of_priority low ps) (of_priority medium ps)))
      (Perm.cons p h))
sorted-step q p ps is_low e h = rw e (Perm.cons p h)
sorted-step q p ps (other a b c) e h = rw (e, a, b, c) h

sorted-keep : (ps : List Pod) → Perm (sorted ps) (keep has_priority ps)
sorted-keep [] = Perm.refl []
sorted-keep (p ∷ ps) =
    sorted-step (get_pod_eviction_priority p) p ps (class (get_pod_eviction_priority p)) refl
      (sorted-keep ps)

pods_of-all_at : (now : Duration) (grace : ℕ) (ps : List Pod) → pods_of (all_at now grace ps) ≡ ps
pods_of-all_at now grace [] = refl
pods_of-all_at now grace (p ∷ ps) = ap (◌∷◌ p) (pods_of-all_at now grace ps)

pods_of-sorted :
    (lows mediums highs : List Pod)
    → pods_of (
        all_at (pos 0) 0 lows
        ++ all_at (pos (10 * second)) 0 mediums
        ++ all_at (pos (20 * second)) 30 highs)
      ≡ lows ++ mediums ++ highs
pods_of-sorted lows mediums highs =
    rw
      (
        map-append,
        map-append,
        pods_of-all_at (pos 0) 0 lows,
        pods_of-all_at (pos (10 * second)) 0 mediums,
        pods_of-all_at (pos (20 * second)) 30 highs,
      )
      refl

deletions-in_order :
    (s : Split)
    → deletions (pos 0) (evict_in_order s)
      ≡ all_at (pos 0) 0 s.low_pods
        ++ all_at (pos (10 * second)) 0 s.medium_pods
        ++ all_at (pos (20 * second)) 30 s.high_pods
unfolding evict_in_order ◌+ℤ◌
deletions-in_order s =
    let lows = evict_pods s.low_pods 0 in
    let mediums = pause ∷ evict_pods s.medium_pods 0 in
    let highs = pause ∷ evict_pods s.high_pods 30 in
    let late = all_at (pos (20 * second)) 30 s.high_pods in
    ap (deletions (pos 0)) (append_assoc lows mediums highs)
    ∙ deletions-evict (pos 0) s.low_pods 0 (mediums ++ highs)
    ∙ ap (λ ds. all_at (pos 0) 0 s.low_pods ++ ds)
        (deletions-evict (pos (10 * second)) s.medium_pods 0 highs
          ∙ ap (λ ds. all_at (pos (10 * second)) 0 s.medium_pods ++ ds)
              (deletions-evict_last (pos (20 * second)) s.high_pods 30))
    ∙ sym (
        append_assoc (all_at (pos 0) 0 s.low_pods) (all_at (pos (10 * second)) 0 s.medium_pods)
          late)

abbrev pub no_pods : Split
no_pods = record { high_pods = []; medium_pods = []; low_pods = [] }

-- When the pods of the node can be listed, a worker deletes those of low priority at once and without
-- grace, those of medium priority ten seconds later without grace, and those of high priority twenty
-- seconds after the start with a grace of 30 seconds, each in the order of the list. So the pods that it
-- deletes are, each once, those with one of these three priorities, and a pod with another one is left.
pub gracefully_evict_pods-sorted :
    (pods : List Pod) (node_name : String) (warnings : Entries Time)
    → let deleted = deletions (pos 0) (gracefully_evict_pods (ok pods) node_name warnings).0 in
      (deleted
        ≡ all_at (pos 0) 0 (of_priority "low" pods)
          ++ all_at (pos (10 * second)) 0 (of_priority "medium" pods)
          ++ all_at (pos (20 * second)) 30 (of_priority "high" pods))
      × Perm (pods_of deleted) (keep has_priority pods)
unfolding gracefully_evict_pods
gracefully_evict_pods-sorted pods node_name warnings =
    let lows = of_priority "low" pods in
    let mediums = of_priority "medium" pods in
    let highs = of_priority "high" pods in
    let in_order =
      ap (λ s. deletions (pos 0) (evict_in_order s)) (split_pods-joined pods no_pods)
      ∙ deletions-in_order (joined pods no_pods) in
    (
      in_order,
      subst (λ ps. Perm ps (keep has_priority pods))
          (sym (ap pods_of in_order ∙ pods_of-sorted lows mediums highs)) (sorted-keep pods),
    )
