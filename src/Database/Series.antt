-- ===== src/Database/Series.antt =====
-- The two time series: `GetHourlyCostTimeSeries` and `GetDailyCostByNamespace`. The moment that lies a
-- number of hours or days back and the start of the hour or day of a moment, `time_bucket`, are
-- arguments, since the database works them out. An average is the sum divided by the number.
use gpuautoscaler.Prelude.{
  ◌≡◌, ℤ, pos, ◌+ℤ◌, Bool, true, false, Bool-cases, Option, none, some, inl, inr, String, str_eq,
  List, [], ◌∷◌, map, keep, length, All, All-mono, leb_ℤ, ltb_ℤ, Entries, Entry, entry, lookup,
  insert, if◌then◌else◌, arith,
}
use gpuautoscaler.Prelude.Float.{Float64}
use gpuautoscaler.Prelude.Results.{Result, Error, ok, err}
use gpuautoscaler.Prelude.Time.{Time}
use gpuautoscaler.Database.Costs.{CostRow, sum_cost}

module _ (fl : Float64) where
  pub record TimeSeriesPoint : Type 0 where
    pub time : Time
    pub rate : fl.F
    pub cost : fl.F

  pub record DailyCostPoint : Type 0 where
    pub day : Time
    pub cost : fl.F
    pub avg_gpus : fl.F

  -- The rows of one bucket.
  pub record Group : Type 0 where
    pub bucket : Time
    pub rows : List (CostRow fl)

  -- `GROUP BY bucket ORDER BY bucket ASC`, one row.
  unfoldable pub into_group : Time → CostRow fl → List Group → List Group
  into_group t r [] = record { bucket = t; rows = r ∷ [] } ∷ []
  into_group t r (g ∷ gs) =
      let later = into_group t r gs in
      if ltb_ℤ t g.bucket
      then record { bucket = t; rows = r ∷ [] } ∷ g ∷ gs
      else if ltb_ℤ g.bucket t
      then g ∷ later
      else (record { bucket = g.bucket; rows = r ∷ g.rows }) ∷ gs

  unfoldable pub groups : (Time → Time) → List (CostRow fl) → List Group
  unfolding into_group
  groups bucket_of [] = []
  groups bucket_of (r ∷ rs) = into_group (bucket_of r.time) r (groups bucket_of rs)

  unfoldable pub sum_rate : List (CostRow fl) → fl.F → fl.F
  sum_rate [] total = total
  sum_rate (r ∷ rs) total = sum_rate rs (fl.add total r.hourly_rate)

  -- `MAX(cumulative_cost)` of a row and others.
  unfoldable pub max_cost : fl.F → List (CostRow fl) → fl.F
  max_cost best [] = best
  max_cost best (r ∷ rs) =
      max_cost (if fl.lt best r.cumulative_cost then r.cumulative_cost else best) rs

  unfoldable pub sum_gpus : List (CostRow fl) → ℤ
  unfolding ◌+ℤ◌
  sum_gpus [] = pos 0
  sum_gpus (r ∷ rs) = r.gpu_count +ℤ sum_gpus rs

  abbrev pub max_of_group : List (CostRow fl) → fl.F
  max_of_group [] = fl.of_int (pos 0)
  max_of_group (r ∷ rs) = max_cost r.cumulative_cost rs

  abbrev pub hourly_point : Group → TimeSeriesPoint
  hourly_point g = record {
    time = g.bucket;
    rate = fl.div (sum_rate g.rows (fl.of_int (pos 0))) (fl.of_int (pos (length g.rows)));
    cost = max_of_group g.rows;
  }

  abbrev pub daily_point : Group → DailyCostPoint
  daily_point g = record {
    day = g.bucket;
    cost = sum_cost fl g.rows (fl.of_int (pos 0));
    avg_gpus = fl.div (fl.of_int (sum_gpus g.rows)) (fl.of_int (pos (length g.rows)));
  }

  abbrev pub answered_series : {A : Type 0} → Option Error → A → Result A
  answered_series none points = ok points
  answered_series (some e) points = err e

  abbrev pub since_in : String → Time → CostRow fl → Bool
  since_in name since r = if str_eq r.namespace name then leb_ℤ since r.time else false

  unfoldable pub get_hourly_cost_time_series :
      Option Error
      → (ℤ → Time)
      → (Time → Time)
      → List (CostRow fl)
      → String
      → ℤ
      → Result (List TimeSeriesPoint)
  unfolding groups sum_rate max_cost
  get_hourly_cost_time_series fault hours_back hour_of rows namespace hours =
      answered_series fault
        (map hourly_point (groups hour_of (keep (since_in namespace (hours_back hours)) rows)))

  abbrev pub rows_or_none : Option (List (CostRow fl)) → List (CostRow fl)
  rows_or_none none = []
  rows_or_none (some rows) = rows

  -- `GROUP BY namespace`
  unfoldable pub by_namespace : List (CostRow fl) → Entries (List (CostRow fl))
  unfolding lookup insert
  by_namespace [] = []
  by_namespace (r ∷ rs) =
      let later = by_namespace rs in
      insert later r.namespace (r ∷ rows_or_none (lookup later r.namespace))

  -- The days of a namespace come in order, so they are appended in order to its entry of the map.
  abbrev pub daily_entry : (Time → Time) → Entry (List (CostRow fl)) → Entry (List DailyCostPoint)
  daily_entry day_of e = entry e.key (map daily_point (groups day_of e.value))

  unfoldable pub get_daily_cost_by_namespace :
      Option Error
      → (ℤ → Time)
      → (Time → Time)
      → List (CostRow fl)
      → ℤ
      → Result (Entries (List DailyCostPoint))
  unfolding groups sum_gpus sum_cost by_namespace
  get_daily_cost_by_namespace fault days_back day_of rows days = answered_series fault (
      map (daily_entry day_of)
        (by_namespace (keep (λ (r : CostRow fl). leb_ℤ (days_back days) r.time) rows)))

  abbrev pub IsAfter : Time → Group → Type 0
  IsAfter t g = ltb_ℤ t g.bucket ≡ true

  abbrev pub IsAscending : List Group → Type 0
  IsAscending [] = Unit
  IsAscending (g ∷ gs) = All (IsAfter g.bucket) gs × IsAscending gs

  into_group-IsAfter :
      (s t : Time) (r : CostRow fl) (gs : List Group)
      → ltb_ℤ s t ≡ true
      → All (IsAfter s) gs
      → All (IsAfter s) (into_group t r gs)
  unfolding into_group
  into_group-IsAfter s t r [] h all = (h, tt)
  into_group-IsAfter s t r (g ∷ gs) h all = elim (Bool-cases (ltb_ℤ t g.bucket)) [
    | inl before ↦ rw before (h, all)
    | inr not_before ↦ rw not_before (elim (Bool-cases (ltb_ℤ g.bucket t)) [
      | inl behind ↦ rw behind (all.0, into_group-IsAfter s t r gs h all.1)
      | inr same ↦ rw same (all.0, all.1)
    ])
  ]

  into_group-IsAscending :
      (t : Time) (r : CostRow fl) (gs : List Group)
      → IsAscending gs
      → IsAscending (into_group t r gs)
  unfolding into_group
  into_group-IsAscending t r [] h = (tt, tt)
  into_group-IsAscending t r (g ∷ gs) h = elim (Bool-cases (ltb_ℤ t g.bucket)) [
    | inl before ↦
        rw before
          ((before, All-mono gs (λ (x : Group) after. ground (arith, before, after)) h.0), h)
    | inr not_before ↦ rw not_before (elim (Bool-cases (ltb_ℤ g.bucket t)) [
      | inl behind ↦
          rw behind
            (into_group-IsAfter g.bucket t r gs behind h.0, into_group-IsAscending t r gs h.1)
      | inr same ↦ rw same h
    ])
  ]

  -- The buckets of a series ascend, each once, in whatever order the rows stand in the table.
  pub groups-IsAscending :
      (bucket_of : Time → Time) (rows : List (CostRow fl)) → IsAscending (groups bucket_of rows)
  unfolding groups
  groups-IsAscending bucket_of [] = tt
  groups-IsAscending bucket_of (r ∷ rs) =
      into_group-IsAscending (bucket_of r.time) r (groups bucket_of rs)
        (groups-IsAscending bucket_of rs)
