-- ===== src/Database/Savings.antt =====
-- The table cost_savings: `InsertSavingsData` and `GetTotalSavings`. What the column TIMESTAMPTZ
-- keeps of a moment is an argument, `stored`.
use gpuautoscaler.Prelude.{
  ◌≡◌, refl, ap, ◌∙◌, Bool, false, Option, none, some, String, str_eq, List, [], ◌∷◌, keep, leb_ℤ,
  Entries, lookup, insert, if◌then◌else◌,
}
use gpuautoscaler.Prelude.Float.{Float64}
use gpuautoscaler.Prelude.Sums.{number_or, raise, lookup-raise}
use gpuautoscaler.Prelude.Results.{Result, Error, ok, err, wrapped}
use gpuautoscaler.Prelude.Time.{Time}
use gpuautoscaler.Database.Costs.{is_between}

module _ (fl : Float64) where
  pub record SavingsRow : Type 0 where
    pub time : Time
    pub namespace : String
    pub optimization_type : String
    pub savings_amount : fl.F
    pub baseline_cost : fl.F
    pub actual_cost : fl.F
    pub details : String

  -- The primary key: the time, the namespace and the type.
  abbrev pub same_savings : SavingsRow → SavingsRow → Bool
  same_savings r s =
      if leb_ℤ r.time s.time
      then (if leb_ℤ s.time r.time
          then (if str_eq r.namespace s.namespace
              then str_eq r.optimization_type s.optimization_type
              else false)
          else false)
      else false

  unfoldable pub upsert_savings : SavingsRow → List SavingsRow → List SavingsRow
  upsert_savings r [] = r ∷ []
  upsert_savings r (s ∷ ss) =
      let later = upsert_savings r ss in if same_savings r s then r ∷ ss else s ∷ later

  -- The details come as `mapToJSON` writes them, or as its error.
  abbrev pub insert_savings_data :
      (Time → Time)
      → Option Error
      → Time
      → String
      → String
      → fl.F
      → fl.F
      → fl.F
      → Result String
      → List SavingsRow
      → List SavingsRow × Option Error
  insert_savings_data stored fault now namespace kind savings baseline actual (err e) rows =
      (rows, some (wrapped "failed to marshal details" e))
  insert_savings_data stored (some e) now namespace kind savings baseline actual (ok json) rows =
      (rows, some e)
  insert_savings_data stored none now namespace kind savings baseline actual (ok json) rows = (
    upsert_savings
        (record {
          time = stored now;
          namespace = namespace;
          optimization_type = kind;
          savings_amount = savings;
          baseline_cost = baseline;
          actual_cost = actual;
          details = json;
        })
        rows,
    none,
  )

  -- `SUM(savings_amount) … GROUP BY optimization_type`, as the map that the rows are scanned into.
  unfoldable pub group_savings : List SavingsRow → Entries fl.F → Entries fl.F
  unfolding lookup insert
  group_savings [] sums = sums
  group_savings (r ∷ rs) sums =
      group_savings rs (raise fl r.optimization_type r.savings_amount sums)

  abbrev pub answered_savings : Option Error → Entries fl.F → Result (Entries fl.F)
  answered_savings none sums = ok sums
  answered_savings (some e) sums = err e

  unfoldable pub get_total_savings :
      (Time → Time) → Option Error → List SavingsRow → Time → Time → Result (Entries fl.F)
  unfolding group_savings
  get_total_savings stored fault rows from to = answered_savings fault (
      group_savings (keep (λ (r : SavingsRow). is_between (stored from) (stored to) r.time) rows)
        [])

  -- The amounts of one type, one after the other.
  abbrev pub sum_savings : String → List SavingsRow → Option fl.F → Option fl.F
  sum_savings kind [] total = total
  sum_savings kind (r ∷ rs) total = sum_savings kind rs (
      if str_eq kind r.optimization_type
      then some (fl.add (number_or fl total) r.savings_amount)
      else total)

  group_savings-lookup :
      (rows : List SavingsRow) (sums : Entries fl.F) (kind : String)
      → lookup (group_savings rows sums) kind ≡ sum_savings kind rows (lookup sums kind)
  unfolding group_savings
  group_savings-lookup [] sums kind = refl
  group_savings-lookup (r ∷ rs) sums kind =
      group_savings-lookup rs (raise fl r.optimization_type r.savings_amount sums) kind
      ∙ ap (sum_savings kind rs) (lookup-raise fl r.optimization_type r.savings_amount sums kind)

  -- The map of `GetTotalSavings` has for each type the sum of its amounts in the range, and no entry for
  -- a type without a row there; a failing query gives the error alone.
  pub get_total_savings-lookup :
      (stored : Time → Time) (rows : List SavingsRow) (from to : Time) (e : Error)
      → (sums : Entries fl.F) × (get_total_savings stored none rows from to ≡ ok sums)
        × ((kind : String)
            → lookup sums kind
              ≡ sum_savings kind
                  (keep (λ (r : SavingsRow). is_between (stored from) (stored to) r.time) rows)
                  none)
        × (get_total_savings stored (some e) rows from to ≡ err e)
  unfolding get_total_savings
  get_total_savings-lookup stored rows from to e =
      let kept = keep (λ (r : SavingsRow). is_between (stored from) (stored to) r.time) rows in
      (
        group_savings kept [],
        refl,
        (λ kind. group_savings-lookup kept [] kind ∙ (unfold lookup in refl)),
        refl,
      )
