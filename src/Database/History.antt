-- ===== src/Database/History.antt =====
-- The table budget_tracking: `UpdateBudgetTracking` and `GetBudgetHistory`. The moment that lies a number
-- of days back is an argument, since the database works it out, and so is what the column TIMESTAMPTZ
-- keeps of a moment, `stored`, since the database rounds it to microseconds.
use gpuautoscaler.Prelude.{
  ℤ, Bool, true, false, Option, none, some, String, str_eq, List, [], ◌∷◌, ◌++◌, map, keep, leb_ℤ,
  ltb_ℤ, if◌then◌else◌,
}
use gpuautoscaler.Prelude.Float.{Float64}
use gpuautoscaler.Prelude.Results.{Result, Error, ok, err, api}
use gpuautoscaler.Prelude.Time.{Time}

module _ (fl : Float64) where
  pub record BudgetRow : Type 0 where
    pub time : Time
    pub budget_name : String
    pub scope_namespace : String
    pub scope_team : String
    pub monthly_limit : fl.F
    pub current_spend : fl.F
    pub percentage_used : fl.F
    pub status : String

  pub record BudgetHistoryPoint : Type 0 where
    pub time : Time
    pub limit : fl.F
    pub spend : fl.F
    pub percentage : fl.F
    pub status : String

  -- The primary key: the time and the name. No `ON CONFLICT` stands in the statement.
  abbrev pub same_key : BudgetRow → BudgetRow → Bool
  same_key r s =
      if leb_ℤ r.time s.time
      then (if leb_ℤ s.time r.time then str_eq r.budget_name s.budget_name else false)
      else false

  unfoldable pub has_key : BudgetRow → List BudgetRow → Bool
  has_key r [] = false
  has_key r (s ∷ ss) = let rest = has_key r ss in if same_key r s then true else rest

  abbrev pub tracked : Option Error → BudgetRow → List BudgetRow → List BudgetRow × Option Error
  tracked (some e) r rows = (rows, some e)
  tracked none r rows =
      if has_key r rows
      then (rows, some (api "duplicate key value violates unique constraint"))
      else (rows ++ r ∷ [], none)

  unfoldable pub update_budget_tracking :
      (Time → Time)
      → Option Error
      → Time
      → String
      → String
      → String
      → fl.F
      → fl.F
      → fl.F
      → String
      → List BudgetRow
      → List BudgetRow × Option Error
  unfolding has_key
  update_budget_tracking stored fault now name namespace team limit spend percentage status rows =
      tracked fault
        (record {
          time = stored now;
          budget_name = name;
          scope_namespace = namespace;
          scope_team = team;
          monthly_limit = limit;
          current_spend = spend;
          percentage_used = percentage;
          status = status;
        })
        rows

  -- `ORDER BY time ASC`
  unfoldable pub insert_by_time : BudgetRow → List BudgetRow → List BudgetRow
  insert_by_time r [] = r ∷ []
  insert_by_time r (s ∷ ss) =
      let later = insert_by_time r ss in if ltb_ℤ s.time r.time then s ∷ later else r ∷ s ∷ ss

  unfoldable pub order_by_time : List BudgetRow → List BudgetRow
  unfolding insert_by_time
  order_by_time [] = []
  order_by_time (r ∷ rs) = insert_by_time r (order_by_time rs)

  abbrev pub point_of : BudgetRow → BudgetHistoryPoint
  point_of r = record {
    time = r.time;
    limit = r.monthly_limit;
    spend = r.current_spend;
    percentage = r.percentage_used;
    status = r.status;
  }

  abbrev pub in_history : String → Time → BudgetRow → Bool
  in_history name since r = if str_eq r.budget_name name then leb_ℤ since r.time else false

  abbrev pub history : String → Time → List BudgetRow → List BudgetHistoryPoint
  history name since rows = map point_of (order_by_time (keep (in_history name since) rows))

  abbrev pub answered_history :
      Option Error → List BudgetHistoryPoint → Result (List BudgetHistoryPoint)
  answered_history none points = ok points
  answered_history (some e) points = err e

  unfoldable pub get_budget_history :
      Option Error → (ℤ → Time) → List BudgetRow → String → ℤ → Result (List BudgetHistoryPoint)
  unfolding order_by_time
  get_budget_history fault days_back rows name days =
      answered_history fault (history name (days_back days) rows)
