-- ===== src/Database/Latest.antt =====
-- Which rows `GetCostByTeam` sums.
use gpuautoscaler.Prelude.{
  ◌≡◌, refl, ◌∙◌, pos, true, false, Bool-cases, none, inl, inr, String, eq_iff, List, [], ◌∷◌, All,
  All-mono, Any, keep, keep-All, All-self, All-keep, All-of_keep, leb_ℤ, ltb_ℤ, arith,
}
use gpuautoscaler.Prelude.Float.{Float64}
use gpuautoscaler.Prelude.Results.{ok}
use gpuautoscaler.Prelude.Time.{Time}
use gpuautoscaler.Database.Costs.{
  CostRow, same_pod, later_of, newest, latest_rows, in_team, sum_cost, get_cost_by_team,
}

module _ (fl : Float64) where
  -- The list has a row of the same pod that is as late.
  abbrev pub IsCovered : List (CostRow fl) → CostRow fl → Type 0
  IsCovered rows r = Any (λ s. (same_pod fl r s ≡ true) × (leb_ℤ r.time s.time ≡ true)) rows

  abbrev pub IsDistinct : List (CostRow fl) → Type 0
  IsDistinct [] = Unit {0}
  IsDistinct (r ∷ rs) = All (λ s. same_pod fl r s ≡ false) rs × IsDistinct rs

  same_pod_refl : (r : CostRow fl) → same_pod fl r r ≡ true
  same_pod_refl r = ground (arith, eq_iff r.pod_name r.pod_name, eq_iff r.namespace r.namespace)

  same_pod-sym : (r s : CostRow fl) → same_pod fl r s ≡ same_pod fl s r
  same_pod-sym r s = ground (
    arith,
    eq_iff r.pod_name s.pod_name,
    eq_iff s.pod_name r.pod_name,
    eq_iff r.namespace s.namespace,
    eq_iff s.namespace r.namespace,
  )

  same_pod-like : (r s t : CostRow fl) → same_pod fl r s ≡ true → same_pod fl r t ≡ same_pod fl s t
  same_pod-like r s t h = ground (
    arith,
    eq_iff r.pod_name s.pod_name,
    eq_iff r.namespace s.namespace,
    eq_iff s.pod_name t.pod_name,
    eq_iff s.namespace t.namespace,
    eq_iff r.pod_name t.pod_name,
    eq_iff r.namespace t.namespace,
  )

  later_of-ind : (P : CostRow fl → Type 0) (r s : CostRow fl) → P r → P s → P (later_of fl r s)
  later_of-ind P r s p q = elim (Bool-cases (ltb_ℤ s.time r.time)) [
    | inl later ↦ rw later p
    | inr earlier ↦ rw earlier q
  ]

  newest-All :
      (P : CostRow fl → Type 0) (r : CostRow fl) (rows : List (CostRow fl))
      → P r
      → All P rows
      → All P (newest fl r rows)
  unfolding newest
  newest-All P r [] p _ = (p, tt)
  newest-All P r (s ∷ ss) p (q, qs) = elim (Bool-cases (same_pod fl r s)) [
    | inl same ↦ rw same (later_of-ind P r s p q, qs)
    | inr other ↦ rw other (q, newest-All P r ss p qs)
  ]

  IsAsLate : CostRow fl → CostRow fl → Type 0
  IsAsLate q s = (same_pod fl q s ≡ true) × (leb_ℤ q.time s.time ≡ true)

  later_of-IsAsLate :
      (q r s : CostRow fl)
      → same_pod fl r s ≡ true
      → (same_pod fl q s ≡ true) × (leb_ℤ q.time s.time ≡ true)
      → (same_pod fl q (later_of fl r s) ≡ true) × (leb_ℤ q.time (later_of fl r s).time ≡ true)
  later_of-IsAsLate q r s same (like, early) = elim (Bool-cases (ltb_ℤ s.time r.time)) [
    | inr earlier ↦ rw earlier (like, early)
    | inl later ↦
        rw later (same_pod-like q s r like ∙ same_pod-sym s r ∙ same, ground (arith, later, early))
  ]

  later_of-IsAsLate_self :
      (r s : CostRow fl)
      → same_pod fl r s ≡ true
      → (same_pod fl r (later_of fl r s) ≡ true) × (leb_ℤ r.time (later_of fl r s).time ≡ true)
  later_of-IsAsLate_self r s same = elim (Bool-cases (ltb_ℤ s.time r.time)) [
    | inr earlier ↦ rw earlier (same, ground (arith, earlier))
    | inl later ↦ rw later (same_pod_refl r, ground arith)
  ]

  newest-IsCovered :
      (q r : CostRow fl) (rows : List (CostRow fl))
      → IsCovered rows q
      → IsCovered (newest fl r rows) q
  unfolding newest
  newest-IsCovered q r [] h = absurd h
  newest-IsCovered q r (s ∷ ss) h = elim (Bool-cases (same_pod fl r s)) [
    | inl same ↦
        rw same
          (elim h [ inl here ↦ inl (later_of-IsAsLate q r s same here) | inr there ↦ inr there ])
    | inr other ↦
        rw other (elim h [ inl here ↦ inl here | inr there ↦ inr (newest-IsCovered q r ss there) ])
  ]

  newest-IsCovered_self :
      (r : CostRow fl) (rows : List (CostRow fl)) → IsCovered (newest fl r rows) r
  unfolding newest
  newest-IsCovered_self r [] = inl (same_pod_refl r, ground arith)
  newest-IsCovered_self r (s ∷ ss) = elim (Bool-cases (same_pod fl r s)) [
    | inl same ↦ rw same (inl (later_of-IsAsLate_self r s same))
    | inr other ↦ rw other (inr (newest-IsCovered_self r ss))
  ]

  newest-IsDistinct :
      (r : CostRow fl) (rows : List (CostRow fl)) → IsDistinct rows → IsDistinct (newest fl r rows)
  unfolding newest
  newest-IsDistinct r [] _ = (tt, tt)
  newest-IsDistinct r (s ∷ ss) (apart, h) = elim (Bool-cases (same_pod fl r s)) [
    | inl same ↦ rw same (
      later_of-ind (λ t. All (λ u. same_pod fl t u ≡ false) ss) r s
          (All-mono ss (λ u e. same_pod-like r s u same ∙ e) apart) apart,
      h,
    )
    | inr other ↦ rw other (
      newest-All (λ u. same_pod fl s u ≡ false) r ss (same_pod-sym s r ∙ other) apart,
      newest-IsDistinct r ss h,
    )
  ]

  latest_rows-All :
      (P : CostRow fl → Type 0) (rows : List (CostRow fl))
      → All P rows
      → All P (latest_rows fl rows)
  unfolding latest_rows
  latest_rows-All P [] _ = tt
  latest_rows-All P (r ∷ rs) (p, ps) = newest-All P r _ p (latest_rows-All P rs ps)

  latest_rows-IsDistinct : (rows : List (CostRow fl)) → IsDistinct (latest_rows fl rows)
  unfolding latest_rows
  latest_rows-IsDistinct [] = tt
  latest_rows-IsDistinct (r ∷ rs) = newest-IsDistinct r _ (latest_rows-IsDistinct rs)

  latest_rows-IsCovered : (rows : List (CostRow fl)) → All (IsCovered (latest_rows fl rows)) rows
  unfolding latest_rows
  latest_rows-IsCovered [] = tt
  latest_rows-IsCovered (r ∷ rs) = (
    newest-IsCovered_self r (latest_rows fl rs),
    All-mono rs (λ q h. newest-IsCovered q r (latest_rows fl rs) h) (latest_rows-IsCovered rs),
  )

  -- A query for a team sums the costs of rows of the table that are of the team and in the range (with
  -- its ends as the table keeps them), of each pod at most one, and none of the team's rows in the range
  -- is later than the one of its pod.
  pub get_cost_by_team-latest :
      (stored : Time → Time) (rows : List (CostRow fl)) (team : String) (from to : Time)
      → (summed : List (CostRow fl)) × (get_cost_by_team fl stored none rows team from to
          ≡ ok (sum_cost fl summed (fl.of_int (pos 0))))
        × All (λ r. Any (λ s. s ≡ r) rows) summed
        × All (λ r. in_team fl team (stored from) (stored to) r ≡ true) summed
        × IsDistinct summed
        × All (λ r. in_team fl team (stored from) (stored to) r ≡ true → IsCovered summed r) rows
  unfolding get_cost_by_team
  get_cost_by_team-latest stored rows team from to =
      let p = in_team fl team (stored from) (stored to) in
      (
        latest_rows fl (keep p rows),
        refl,
        latest_rows-All _ (keep p rows) (All-keep _ p rows (All-self rows)),
        latest_rows-All _ (keep p rows) (keep-All p rows),
        latest_rows-IsDistinct (keep p rows),
        All-of_keep _ p rows (latest_rows-IsCovered (keep p rows)),
      )
