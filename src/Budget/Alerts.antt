-- ===== src/Budget/Alerts.antt =====
-- The entries that `checkAlerts` adds.
use gpuautoscaler.Prelude.{
  ℕ, suc, ◌+◌, ◌≤◌, ◌≡◌, refl, sym, ap, ◌∙◌, inl, inr, Bool, true, false, Bool-cases, List, [], ◌∷◌,
  ◌++◌, All, arith, if◌then◌else◌, String, str_eq, eq_iff,
}
use mathlib.Core.List.{append-nil, append_assoc}
use gpuautoscaler.Prelude.Float.{Float64}
use gpuautoscaler.Prelude.Time.{Time}
use gpuautoscaler.Budget.Model.{BudgetAlert, AlertFired, CostBudget, AlertMessage}
use gpuautoscaler.Budget.Status.{
  is_open, already_fired, fire, fires, check_alerts_loop, check_alerts,
}

module _ (fl : Float64) where
  -- How many entries for an alert nobody has acknowledged.
  abbrev pub open_entries : String → List (AlertFired fl) → ℕ
  open_entries name [] = 0
  open_entries name (f ∷ fs) =
      let rest = open_entries name fs in if is_open fl name f then suc rest else rest

  -- An alert whose threshold is reached has an entry that nobody has acknowledged.
  abbrev pub IsTold : CostBudget fl → List (AlertFired fl) → BudgetAlert fl → Type 0
  IsTold b fired a =
      fl.le a.threshold_percent b.status.percentage_used ≡ true
      → already_fired fl a.name fired ≡ true

  -- What the entries come to.
  pub record IsAlerted (b : CostBudget fl) (alerts : List (BudgetAlert fl))
      (before after : List (AlertFired fl)) : Type 0 where
    pub kept : (new : List (AlertFired fl)) × (after ≡ before ++ new)
    pub told : All (IsTold b after) alerts
    pub once : (name : String) → open_entries name before ≤ 1 → open_entries name after ≤ 1

  already_fired-append :
      (name : String) (xs ys : List (AlertFired fl))
      → already_fired fl name xs ≡ true
      → already_fired fl name (xs ++ ys) ≡ true
  unfolding already_fired
  already_fired-append name [] ys h = cc
  already_fired-append name (x ∷ xs) ys h = ground (arith, already_fired-append name xs ys)

  already_fired-last :
      (now : Time) (a : BudgetAlert fl) (xs : List (AlertFired fl))
      → already_fired fl a.name (xs ++ fire fl now a ∷ []) ≡ true
  unfolding already_fired
  already_fired-last now a [] = ground (arith, eq_iff a.name a.name)
  already_fired-last now a (x ∷ xs) = ground (arith, already_fired-last now a xs)

  open_entries-none :
      (name : String) (xs : List (AlertFired fl))
      → already_fired fl name xs ≡ false
      → open_entries name xs ≡ 0
  unfolding already_fired
  open_entries-none name [] h = refl
  open_entries-none name (x ∷ xs) h = ground (arith, open_entries-none name xs)

  open_entries-last :
      (name : String) (xs : List (AlertFired fl)) (f : AlertFired fl)
      → open_entries name (xs ++ f ∷ [])
        ≡ open_entries name xs + (if is_open fl name f then 1 else 0)
  open_entries-last name [] f = ground arith
  open_entries-last name (x ∷ xs) f = ground (arith, open_entries-last name xs f)

  -- An alert that fires has no open entry yet, so one more leaves one at most.
  fire-once :
      (now : Time) (b : CostBudget fl) (a : BudgetAlert fl) (fired : List (AlertFired fl))
      (name : String)
      → fires fl b fired a ≡ true
      → open_entries name fired ≤ 1
      → open_entries name (fired ++ fire fl now a ∷ []) ≤ 1
  fire-once now b a fired name h few =
      let none_open : already_fired fl a.name fired ≡ false = ground arith in
      let last = open_entries-last name fired (fire fl now a) in
      elim (Bool-cases (str_eq a.name name)) [
        | inl same ↦
            let equal : a.name ≡ name = (eq_iff a.name name).0 same in
            let empty : open_entries name fired ≡ 0 =
              ap (λ n. open_entries n fired) (sym equal)
              ∙ open_entries-none a.name fired none_open in
            ground (arith, last, empty)
        | inr other ↦ ground (arith, last)
      ]

  IsTold-by :
      (b : CostBudget fl) (a : BudgetAlert fl) (fired new after : List (AlertFired fl))
      → after ≡ fired ++ new
      → already_fired fl a.name fired ≡ true
      → IsTold b after a
  IsTold-by b a fired new after split h reached = rw split (already_fired-append a.name fired new h)

  -- Whatever is told is not told again.
  check_alerts_loop-quiet :
      (now : Time) (b : CostBudget fl) (alerts : List (BudgetAlert fl))
      (fired : List (AlertFired fl))
      → All (IsTold b fired) alerts
      → check_alerts_loop fl now b alerts fired ≡ (fired, [])
  unfolding check_alerts_loop
  check_alerts_loop-quiet now b [] fired told = refl
  check_alerts_loop-quiet now b (a ∷ as') fired (told, rest) =
      let silent : fires fl b fired a ≡ false = ground arith in
      rw silent (check_alerts_loop-quiet now b as' fired rest)

  check_alerts_loop-IsAlerted :
      (now : Time) (b : CostBudget fl) (alerts : List (BudgetAlert fl))
      (fired : List (AlertFired fl))
      → IsAlerted b alerts fired (check_alerts_loop fl now b alerts fired).0
  unfolding check_alerts_loop
  check_alerts_loop-IsAlerted now b [] fired = record {
    kept = ([], sym (append-nil fired));
    told = tt;
    once = λ name h. h;
  }
  check_alerts_loop-IsAlerted now b (a ∷ as') fired = elim (Bool-cases (fires fl b fired a)) [
    | inl speaks ↦
        let ih = check_alerts_loop-IsAlerted now b as' (fired ++ fire fl now a ∷ []) in
        let (new, split) = ih.kept in
        rw speaks (record {
          kept = (fire fl now a ∷ new, split ∙ append_assoc fired (fire fl now a ∷ []) new);
          told = (
            IsTold-by b a (fired ++ fire fl now a ∷ []) new _ split
                (already_fired-last now a fired),
            ih.told,
          );
          once = λ name few. ih.once name (fire-once now b a fired name speaks few);
        })
    | inr silent ↦
        let ih = check_alerts_loop-IsAlerted now b as' fired in
        let (new, split) = ih.kept in
        rw silent (record {
          kept = ih.kept;
          told = (λ reached. IsTold-by b a fired new _ split (ground arith) reached, ih.told);
          once = ih.once;
        })
  ]

  no_message :
      (alerter : Bool) → (if◌then◌else◌ {A = List (String × AlertMessage fl)} alerter [] []) ≡ []
  no_message true = refl
  no_message false = refl

  -- After `checkAlerts` the entries that were there are there still, every alert whose threshold the
  -- budget has reached has an entry that nobody has acknowledged, and none has two unless it had; and
  -- a second check of the budget, at whatever time, changes nothing and sends no message.
  pub check_alerts-IsAlerted :
      (alerter : Bool) (now later : Time) (b : CostBudget fl)
      → let b' = (check_alerts fl alerter now b).0 in
        IsAlerted b b.spec.alerts b.status.alerts_fired b'.status.alerts_fired
        × (check_alerts fl alerter later b' ≡ (b', []))
  unfolding check_alerts
  check_alerts-IsAlerted alerter now later b =
      let h = check_alerts_loop-IsAlerted now b b.spec.alerts b.status.alerts_fired in
      let b' = (check_alerts fl alerter now b).0 in
      let quiet = check_alerts_loop-quiet later b' b.spec.alerts b'.status.alerts_fired h.told in
      (h, rw (quiet, no_message alerter) refl)
