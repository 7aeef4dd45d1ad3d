-- ===== src/Database/Recorded.antt =====
-- What is read of a budget after its figures have been written.
use gpuautoscaler.Prelude.{
  ◌≡◌, refl, sym, ap, ◌∙◌, ℤ, true, false, Bool-cases, none, some, inl, inr, String, str_eq, eq_iff,
  List, [], ◌∷◌, ◌++◌, map, keep, keep-append, All, All-mono, All-keep, leb_ℤ, ltb_ℤ, if◌then◌else◌,
  arith,
}
use mathlib.Core.List.{append-nil, map-append}
use gpuautoscaler.Prelude.Float.{Float64}
use gpuautoscaler.Prelude.Results.{ok, api}
use gpuautoscaler.Prelude.Time.{Time}
use gpuautoscaler.Database.History.{
  BudgetRow, BudgetHistoryPoint, same_key, has_key, update_budget_tracking, order_by_time, point_of,
  in_history, history, get_budget_history, insert_by_time,
}

module _ (fl : Float64) where
  insert_by_time-append :
      (r x : BudgetRow fl) (rows : List (BudgetRow fl))
      → leb_ℤ r.time x.time ≡ true
      → insert_by_time fl r (rows ++ x ∷ []) ≡ insert_by_time fl r rows ++ x ∷ []
  unfolding insert_by_time
  insert_by_time-append r x [] le =
      let early : ltb_ℤ x.time r.time ≡ false = ground (arith, le) in rw early refl
  insert_by_time-append r x (s ∷ ss) le = elim (Bool-cases (ltb_ℤ s.time r.time)) [
    | inl before ↦ rw before (ap (λ l. s ∷ l) (insert_by_time-append r x ss le))
    | inr behind ↦ rw behind refl
  ]

  order_by_time-append :
      (rows : List (BudgetRow fl)) (x : BudgetRow fl)
      → All (λ r. leb_ℤ r.time x.time ≡ true) rows
      → order_by_time fl (rows ++ x ∷ []) ≡ order_by_time fl rows ++ x ∷ []
  unfolding order_by_time insert_by_time
  order_by_time-append [] x _ = refl
  order_by_time-append (r ∷ rs) x (h, hs) =
      ap (insert_by_time fl r) (order_by_time-append rs x hs)
      ∙ insert_by_time-append r x (order_by_time fl rs) h

  has_key-early :
      (r : BudgetRow fl) (rows : List (BudgetRow fl))
      → All (λ s. ltb_ℤ s.time r.time ≡ true) rows
      → has_key fl r rows ≡ false
  unfolding has_key
  has_key-early r [] _ = refl
  has_key-early r (s ∷ ss) (h, hs) =
      let new : leb_ℤ r.time s.time ≡ false = ground (arith, h) in
      rw (new, has_key-early r ss hs) refl

  has_key_self :
      (r : BudgetRow fl) (rows : List (BudgetRow fl)) → has_key fl r (rows ++ r ∷ []) ≡ true
  unfolding has_key
  has_key_self r [] = ground (arith, eq_iff r.budget_name r.budget_name)
  has_key_self r (s ∷ ss) =
      rw (has_key_self r ss) (elim (Bool-cases (same_key fl r s)) [
        | inl same ↦ rw same refl
        | inr other ↦ rw other refl
      ])

  -- The point that a query for a budget adds for a row in its range.
  abbrev pub point_for : String → BudgetRow fl → List (BudgetHistoryPoint fl)
  point_for name r = if str_eq r.budget_name name then point_of fl r ∷ [] else []

  history-append :
      (name : String) (since : Time) (r : BudgetRow fl) (rows : List (BudgetRow fl))
      → leb_ℤ since r.time ≡ true
      → All (λ s. ltb_ℤ s.time r.time ≡ true) rows
      → history fl name since (rows ++ r ∷ []) ≡ history fl name since rows ++ point_for name r
  history-append name since r rows recent early =
      let p = in_history fl name since in
      ap (λ l. map (point_of fl) (order_by_time fl l)) (keep-append p rows (r ∷ []))
      ∙ elim (Bool-cases (str_eq r.budget_name name)) [
        | inr other ↦
            rw (other, append-nil (keep p rows))
              (sym (append-nil (map (point_of fl) (order_by_time fl (keep p rows)))))
        | inl same ↦
            rw
              (
                same,
                recent,
                order_by_time-append (keep p rows) r
                    (All-keep _ p rows (All-mono rows (λ s h. ground (arith, h)) early)),
              )
              (map-append (point_of fl) (order_by_time fl (keep p rows)) (r ∷ []))
      ]

  -- If all rows are older than what the table keeps of a moment, an update at this moment succeeds, and a
  -- query whose range begins no later then gives what it gave before and behind it, for the budget that
  -- was updated, the figures that were written with the time that the table keeps; a second update of the
  -- budget at any moment of which the table keeps the same fails and writes nothing.
  pub get_budget_history-update_budget_tracking :
      (stored : Time → Time) (rows : List (BudgetRow fl)) (now again : Time)
      (name namespace team status : String) (limit spend percentage : fl.F) (days_back : ℤ → Time)
      (asked : String) (days : ℤ)
      → All (λ s. ltb_ℤ s.time (stored now) ≡ true) rows
      → leb_ℤ (days_back days) (stored now) ≡ true
      → stored again ≡ stored now
      → let update = (λ (t : Time).
        update_budget_tracking fl stored none t name namespace team limit spend percentage
          status) in
        let after = (update now rows).0 in
        ((update now rows).1 ≡ none)
        × (old : List (BudgetHistoryPoint fl)) × (get_budget_history fl none days_back rows asked
              days
            ≡ ok old)
        × (get_budget_history fl none days_back after asked days
            ≡ ok (
                old
                ++ (if str_eq name asked
                    then (record {
                      time = stored now;
                      limit = limit;
                      spend = spend;
                      percentage = percentage;
                      status = status;
                    })
                      ∷ []
                    else [])))
        × (update again after
            ≡ (after, some (api "duplicate key value violates unique constraint")))
  unfolding update_budget_tracking get_budget_history
  get_budget_history-update_budget_tracking stored rows now again name namespace team status limit
        spend percentage days_back asked days early recent same =
      let r : BudgetRow fl = record {
        time = stored now;
        budget_name = name;
        scope_namespace = namespace;
        scope_team = team;
        monthly_limit = limit;
        current_spend = spend;
        percentage_used = percentage;
        status = status;
      } in
      rw (same, has_key-early r rows early, has_key_self r rows)
        (
          refl,
          history fl asked (days_back days) rows,
          refl,
          ap ok (history-append asked (days_back days) r rows recent early),
          refl,
        )
