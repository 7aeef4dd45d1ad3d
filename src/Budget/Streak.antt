-- ===== src/Budget/Streak.antt =====
-- `ExceededSince` over a series of updates.
use gpuautoscaler.Prelude.{
  ◌≡◌, refl, ap, inl, inr, Bool, true, false, Bool-cases, Option, none, some, List, [], ◌∷◌, ◌++◌,
  All, if◌then◌else◌, str_eq, pos, ◌∙◌, sym,
}
use mathlib.Core.Path.{subst}
use gpuautoscaler.Prelude.Float.{Float64}
use gpuautoscaler.Prelude.Time.{Time}
use gpuautoscaler.Budget.Model.{CostBreakdown, CostBudget}
use gpuautoscaler.Budget.Spend.{is_present}
use gpuautoscaler.Budget.Status.{Calendar, percentage, status_of, exceeded_since_of, next_status}

module _ (fl : Float64) (c : Calendar fl) (parts : Time → CostBreakdown fl) where
  -- A series of updates, each a time and what was spent by then, the newest first; the breakdowns of the
  -- spend are those of `parts`.
  abbrev pub updates : CostBudget fl → List (Time × fl.F) → CostBudget fl
  updates b [] = b
  updates b ((now, spend) ∷ before) =
      let b' = updates b before in record b' { status = next_status fl c now spend (parts now) b' }

module _ (fl : Float64) where
  -- Whether an amount is the budget's limit or more, as the status tells.
  abbrev pub exceeds : CostBudget fl → Time × fl.F → Bool
  exceeds b (now, spend) = fl.le (fl.of_int (pos 100)) (percentage fl spend b.spec.monthly_limit)

  -- No streak of exceeded updates goes on: there is no update, or the newest is not exceeded.
  abbrev pub Calm : CostBudget fl → List (Time × fl.F) → Type 0
  Calm b [] = Unit
  Calm b (x ∷ xs) = exceeds b x ≡ false

  -- The moment at which the streak that goes on began.
  abbrev pub IsStreak : CostBudget fl → List (Time × fl.F) → Option Time → Type 0
  IsStreak b xs none = Calm b xs
  IsStreak b xs (some t) =
      (recent older : List (Time × fl.F)) × (spend : fl.F) × (xs ≡ recent ++ (t, spend) ∷ older)
      × All (λ x. exceeds b x ≡ true) recent
      × (exceeds b (t, spend) ≡ true)
      × Calm b older

  status_of-exceeded :
      (used : fl.F) → str_eq (status_of fl used) "exceeded" ≡ fl.le (fl.of_int (pos 100)) used
  unfolding status_of
  status_of-exceeded used = elim (Bool-cases (fl.le (fl.of_int (pos 100)) used)) [
    | inl e ↦ rw e
    | inr e ↦ elim (Bool-cases (fl.le (fl.of_int (pos 80)) used)) [
      | inl f ↦ rw (e, f)
      | inr f ↦ rw (e, f)
    ]
  ]

  -- What one update makes of the moment.
  IsStreak-step :
      (b : CostBudget fl) (now : Time) (spend : fl.F) (xs : List (Time × fl.F))
      (since : Option Time)
      → exceeds b (now, spend) ≡ true
      → IsStreak b xs since
      → IsStreak b ((now, spend) ∷ xs) (if is_present since then since else some now)
  IsStreak-step b now spend xs none over calm = ([], xs, spend, refl, tt, over, calm)
  IsStreak-step b now spend xs (some t) over (recent, older, first, split, all, at, calm) =
      ((now, spend) ∷ recent, older, first, ap (◌∷◌ (now, spend)) split, (over, all), at, calm)

  module _ (c : Calendar fl) (parts : Time → CostBreakdown fl) (b : CostBudget fl) where
    updates-same_spec : (xs : List (Time × fl.F)) → (updates fl c parts b xs).spec ≡ b.spec
    updates-same_spec [] = refl
    updates-same_spec (x ∷ xs) = updates-same_spec xs

    since_step :
        (now : Time) (spend : fl.F) (xs : List (Time × fl.F))
        → let since = (updates fl c parts b xs).status.exceeded_since in
          (updates fl c parts b ((now, spend) ∷ xs)).status.exceeded_since
          ≡ (if exceeds b (now, spend) then if is_present since then since else some now else none)
    unfolding next_status exceeded_since_of
    since_step now spend xs =
        let used = percentage fl spend b.spec.monthly_limit in
        rw (updates-same_spec xs, status_of-exceeded used) refl

    since_if :
        (now : Time) (spend : fl.F) (xs : List (Time × fl.F)) (over : Bool)
        → exceeds b (now, spend) ≡ over
        → let since = (updates fl c parts b xs).status.exceeded_since in
          (updates fl c parts b ((now, spend) ∷ xs)).status.exceeded_since
          ≡ (if over then if is_present since then since else some now else none)
    since_if now spend xs over e = since_step now spend xs ∙ rw e refl

    -- After a series of updates of a budget that had no such moment, `ExceededSince` is the time of the
    -- first update of the streak of exceeded updates that still goes on, and it is nil if none does. So
    -- the grace period is counted from there, however many updates come between.
    pub updates-IsStreak :
        (xs : List (Time × fl.F))
        → b.status.exceeded_since ≡ none
        → IsStreak b xs (updates fl c parts b xs).status.exceeded_since
    updates-IsStreak [] fresh = subst (IsStreak b []) (sym fresh) tt
    updates-IsStreak ((now, spend) ∷ xs) fresh = elim (Bool-cases (exceeds b (now, spend))) [
      | inl over ↦
          subst (IsStreak b ((now, spend) ∷ xs)) (sym (since_if now spend xs true over))
            (IsStreak-step b now spend xs _ over (updates-IsStreak xs fresh))
      | inr under ↦
          subst (IsStreak b ((now, spend) ∷ xs)) (sym (since_if now spend xs false under)) under
    ]
