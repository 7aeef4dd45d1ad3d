-- ===== src/Database/Costs.antt =====
-- The table cost_data: `InsertCostDataPoint`, `GetCostByNamespace` and `GetCostByTeam`. The connection
-- answers with an error or carries the statement out, and `json.Marshal` is an argument. So is what the
-- column TIMESTAMPTZ keeps of a moment, `stored`, since the database rounds it to microseconds. A sum goes
-- through the rows in the order of the table; the database may take any.
use gpuautoscaler.Prelude.{
  ℤ, pos, Bool, false, Option, none, some, String, str_eq, List, [], ◌∷◌, keep, leb_ℤ, ltb_ℤ, GoMap,
  Entries, if◌then◌else◌,
}
use gpuautoscaler.Prelude.Float.{Float64}
use gpuautoscaler.Prelude.Results.{Result, Error, ok, err, wrap_error, wrapped}
use gpuautoscaler.Prelude.Time.{Time}
use gpuautoscaler.Budget.Spend.{Records}
use gpuautoscaler.Cost.Tracker.{PodCost}

-- `labelsToJSON`
abbrev pub labels_to_json : (Entries String → Result String) → GoMap String → Result String
labels_to_json marshal none = ok "{}"
labels_to_json marshal (some labels) = wrap_error "failed to marshal labels" (marshal labels)

-- `time >= $2 AND time <= $3`
abbrev pub is_between : Time → Time → Time → Bool
is_between from to t = if leb_ℤ from t then leb_ℤ t to else false

module _ (fl : Float64) where
  pub record CostRow : Type 0 where
    pub time : Time
    pub pod_name : String
    pub namespace : String
    pub node : String
    pub gpu_type : String
    pub gpu_count : ℤ
    pub capacity_type : String
    pub sharing_mode : String
    pub hourly_rate : fl.F
    pub cumulative_cost : fl.F
    pub experiment_id : String
    pub team : String
    pub project : String
    pub cost_center : String
    pub labels : String

  abbrev pub row_of : (Time → Time) → PodCost fl → String → CostRow
  row_of stored c json = record {
    time = stored c.last_updated;
    pod_name = c.pod_name;
    namespace = c.namespace;
    node = c.node;
    gpu_type = c.gpu_type;
    gpu_count = c.gpu_count;
    capacity_type = c.capacity_type;
    sharing_mode = c.sharing_mode;
    hourly_rate = c.hourly_rate;
    cumulative_cost = c.total_cost;
    experiment_id = c.experiment_id;
    team = c.team;
    project = c.project;
    cost_center = c.cost_center;
    labels = json;
  }

  abbrev pub same_pod : CostRow → CostRow → Bool
  same_pod r s = if str_eq r.pod_name s.pod_name then str_eq r.namespace s.namespace else false

  -- The primary key: the time, the pod's name and its namespace.
  abbrev pub conflicts : CostRow → CostRow → Bool
  conflicts r s =
      if leb_ℤ r.time s.time then (if leb_ℤ s.time r.time then same_pod r s else false) else false

  -- `ON CONFLICT … DO UPDATE SET` the cost and the rate.
  unfoldable pub upsert : CostRow → List CostRow → List CostRow
  upsert r [] = r ∷ []
  upsert r (s ∷ ss) =
      let later = upsert r ss in
      if conflicts r s
      then (record s { cumulative_cost = r.cumulative_cost; hourly_rate = r.hourly_rate }) ∷ ss
      else s ∷ later

  abbrev inserted_row :
      (Time → Time)
      → Option Error
      → PodCost fl
      → List CostRow
      → Result String
      → List CostRow × Option Error
  inserted_row stored fault c rows (err e) = (rows, some (wrapped "failed to marshal labels" e))
  inserted_row stored none c rows (ok json) = (upsert (row_of stored c json) rows, none)
  inserted_row stored (some e) c rows (ok json) = (rows, some e)

  unfoldable pub insert_cost_data_point :
      (Time → Time)
      → (Entries String → Result String)
      → Option Error
      → PodCost fl
      → List CostRow
      → List CostRow × Option Error
  unfolding upsert
  insert_cost_data_point stored marshal fault c rows =
      inserted_row stored fault c rows (labels_to_json marshal c.labels)

  -- `COALESCE(SUM(cumulative_cost), 0)`
  unfoldable pub sum_cost : List CostRow → fl.F → fl.F
  sum_cost [] total = total
  sum_cost (r ∷ rs) total = sum_cost rs (fl.add total r.cumulative_cost)

  abbrev pub in_namespace : String → Time → Time → CostRow → Bool
  in_namespace name from to r = if str_eq r.namespace name then is_between from to r.time else false

  abbrev pub in_team : String → Time → Time → CostRow → Bool
  in_team name from to r = if str_eq r.team name then is_between from to r.time else false

  abbrev pub answered_with : Option Error → fl.F → Result fl.F
  answered_with none total = ok total
  answered_with (some e) total = err e

  unfoldable pub get_cost_by_namespace :
      (Time → Time) → Option Error → List CostRow → String → Time → Time → Result fl.F
  unfolding sum_cost
  get_cost_by_namespace stored fault rows name from to =
      answered_with fault
        (sum_cost (keep (in_namespace name (stored from) (stored to)) rows) (fl.of_int (pos 0)))

  abbrev pub later_of : CostRow → CostRow → CostRow
  later_of r s = if ltb_ℤ s.time r.time then r else s

  -- A row in the place of an earlier one of its pod, or behind the rows of other pods.
  unfoldable pub newest : CostRow → List CostRow → List CostRow
  newest r [] = r ∷ []
  newest r (s ∷ ss) =
      let later = newest r ss in if same_pod r s then later_of r s ∷ ss else s ∷ later

  -- `DISTINCT ON (pod_name, namespace) … ORDER BY pod_name, namespace, time DESC`: of each pod the row
  -- with the latest time.
  unfoldable pub latest_rows : List CostRow → List CostRow
  unfolding newest
  latest_rows [] = []
  latest_rows (r ∷ rs) = newest r (latest_rows rs)

  unfoldable pub get_cost_by_team :
      (Time → Time) → Option Error → List CostRow → String → Time → Time → Result fl.F
  unfolding sum_cost latest_rows
  get_cost_by_team stored fault rows name from to = answered_with fault (
      sum_cost (latest_rows (keep (in_team name (stored from) (stored to)) rows))
        (fl.of_int (pos 0)))

  -- The database as the budget controller and the attribution controller see it.
  abbrev pub records_of : (Time → Time) → Option Error → List CostRow → Records fl
  records_of stored fault rows = record {
    by_namespace = get_cost_by_namespace stored fault rows;
    by_team = get_cost_by_team stored fault rows;
  }
