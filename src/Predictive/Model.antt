-- ===== src/Predictive/Model.antt =====
-- The data of pkg/autoscaler/predictive_scaler.go, and the constants of its prediction.
use gpuautoscaler.Prelude.{ℕ, ◌*◌, ◌<◌, ◌+◌, ◌%◌, ◌≡◌, ℤ, pos, ◌+ℤ◌, String, List}
use gpuautoscaler.Prelude.Float.{Float64}
use gpuautoscaler.Prelude.Time.{Time, Duration, minute}

abbrev pub hour : ℕ
hour = 60 * minute

abbrev pub day : ℕ
day = 24 * hour

abbrev pub historical_lookback : ℕ
historical_lookback = 7 * day

-- `t.Weekday()` (Sunday is 0) and `t.Hour()`, in the location of the process.
pub record Calendar : Type 0 where
  pub weekday : Time → ℕ
  pub hour_of : Time → ℕ

-- In a location without daylight saving time a moment 24 hours later lies on the next day of the week.
pub record IsRegular (c : Calendar) : Type 0 where
  pub weekday_lt : (t : Time) → c.weekday t < 7
  pub next_day : (t : Time) → c.weekday (t +ℤ pos day) ≡ (c.weekday t + 1) % 7

module _ (fl : Float64) where
  pub record UtilizationPattern : Type 0 where
    pub day_of_week : ℕ
    pub hour_of_day : ℕ
    pub duration : Duration
    pub avg_utilization : fl.F
    pub peak_utilization : fl.F
    pub pods_count : ℤ
    pub trend : String

  -- The state that `PredictiveScaler` keeps between calls.
  pub record PredictiveScaler : Type 0 where
    pub patterns : List UtilizationPattern
    pub last_update : Time
