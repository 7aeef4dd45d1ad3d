-- ===== src/Predictive/Patterns.antt =====
-- `updatePatterns`, `analyzePattern` and the statistics that they use.
use gpuautoscaler.Prelude.{
  ℕ, zero, suc, ◌==◌, ltb, ltb_ℤ, ℤ, pos, ◌+ℤ◌, ◌-ℤ◌, add64, Bool, true, Option, none, some, List,
  [], ◌∷◌, ◌++◌, length, map, insert, Entries, String, if◌then◌else◌,
}
use gpuautoscaler.Prelude.Float.{Float64}
use gpuautoscaler.Prelude.Results.{Result, ok, err}
use gpuautoscaler.Prelude.Time.{Time}
use gpuautoscaler.Autoscaler.Model.{GpuMetrics}
use gpuautoscaler.Autoscaler.Observe.{total_utilization}
use gpuautoscaler.Predictive.Model.{
  Calendar, UtilizationPattern, PredictiveScaler, hour, day, historical_lookback,
}

-- `time.Sunday` to `time.Saturday`, and the hours of a day.
abbrev pub up_to : ℕ → ℕ → List ℕ
up_to first zero = []
up_to first (suc n) = first ∷ up_to (suc first) n

infixl 5 ◌>>=◌
abbrev ◌>>=◌ {ℓ κ} : {A : Type ℓ} {B : Type κ} → Option A → (A → Option B) → Option B
none >>= f = none
some a >>= f = f a

module _ (fl : Float64) where
  unfoldable pub sum_floats : List fl.F → fl.F → fl.F
  sum_floats [] sum = sum
  sum_floats (v ∷ vs) sum = sum_floats vs (fl.add sum v)

  unfoldable pub average : List fl.F → fl.F
  unfolding sum_floats
  average [] = fl.of_int (pos 0)
  average vs = fl.div (sum_floats vs (fl.of_int (pos 0))) (fl.of_int (pos (length vs)))

  unfoldable pub max_from : fl.F → List fl.F → fl.F
  max_from top [] = top
  max_from top (v ∷ vs) = max_from (if fl.lt top v then v else top) vs

  unfoldable pub max_value : List fl.F → fl.F
  unfolding max_from
  max_value [] = fl.of_int (pos 0)
  max_value (v ∷ vs) = max_from v vs

  unfoldable pub sum_int : List ℤ → ℤ → ℤ
  unfolding add64
  sum_int [] sum = sum
  sum_int (v ∷ vs) sum = sum_int vs (add64 sum v)

  -- The four sums of the regression, over the values from the index `i`.
  pub record Sums : Type 0 where
    pub x : fl.F
    pub y : fl.F
    pub xy : fl.F
    pub x2 : fl.F

  unfoldable pub regression_sums : ℕ → List fl.F → Sums → Sums
  regression_sums i [] s = s
  regression_sums i (v ∷ vs) s =
      let x = fl.of_int (pos i) in
      regression_sums (suc i) vs (record {
        x = fl.add s.x x;
        y = fl.add s.y v;
        xy = fl.add s.xy (fl.mul x v);
        x2 = fl.add s.x2 (fl.mul x x);
      })

  unfoldable pub slope : List fl.F → fl.F
  unfolding regression_sums
  slope values =
      let n = fl.of_int (pos (length values)) in
      let none_yet = fl.of_int (pos 0) in
      let s =
        regression_sums 0 values
          (record { x = none_yet; y = none_yet; xy = none_yet; x2 = none_yet }) in
      fl.div (fl.sub (fl.mul n s.xy) (fl.mul s.x s.y)) (fl.sub (fl.mul n s.x2) (fl.mul s.x s.x))

  unfoldable pub detect_trend : List fl.F → String
  unfolding slope
  detect_trend values =
      let steep = fl.lit 5 2 in
      if ltb (length values) 3
      then "stable"
      else if fl.lt steep (slope values)
      then "increasing"
      else if fl.lt (slope values) (fl.sub (fl.of_int (pos 0)) steep)
      then "decreasing"
      else "stable"

  -- The keys of `podSet`.
  unfoldable pub pod_set : List (GpuMetrics fl) → Entries Bool → Entries Bool
  unfolding insert
  pod_set [] set = set
  pod_set (m ∷ ms) set = pod_set ms (insert set m.pod_name true)

  -- A sample: the mean utilization and the number of pods.
  abbrev pub Sample : Type 0
  Sample = fl.F × ℤ

  abbrev pub sample_of : Result (List (GpuMetrics fl)) → List Sample
  sample_of (err e) = []
  sample_of (ok []) = []
  sample_of (ok ms) =
      (
        fl.div (total_utilization fl ms (fl.of_int (pos 0))) (fl.of_int (pos (length ms))),
        pos (length (pod_set ms [])),
      )
      ∷ []

  module _ (c : Calendar) (metrics_at : Time → Result (List (GpuMetrics fl))) where
    abbrev pub matched : ℕ → ℕ → Time → List Sample
    matched weekday hour_of_day t =
        if c.weekday t == weekday
        then (if c.hour_of t == hour_of_day then sample_of (metrics_at t) else [])
        else []

    -- `for current.Before(endTime)`: the samples, or `none` when the fuel is used up.
    unfoldable pub collect : ℕ → ℕ → ℕ → Time → Time → Option (List Sample)
    unfolding total_utilization pod_set ◌+ℤ◌
    collect zero weekday hour_of_day current last = none
    collect (suc fuel) weekday hour_of_day current last =
        let later = collect fuel weekday hour_of_day (current +ℤ pos day) last in
        let sampled = matched weekday hour_of_day current in
        if ltb_ℤ current last then (later >>= λ rest. some (sampled ++ rest)) else some []

    -- The statistics of enough samples; fewer than three give no pattern.
    unfoldable pub pattern_of : ℕ → ℕ → List Sample → List (UtilizationPattern fl)
    unfolding average max_value sum_int detect_trend
    pattern_of weekday hour_of_day samples =
        let values = map (λ (s : Sample). s.0) samples in
        let pods = fl.of_int (sum_int (map (λ (s : Sample). s.1) samples) (pos 0)) in
        if ltb (length samples) 3
        then []
        else record {
          day_of_week = weekday;
          hour_of_day = hour_of_day;
          duration = pos hour;
          avg_utilization = average values;
          peak_utilization = max_value values;
          pods_count = fl.trunc (fl.div pods (fl.of_int (pos (length samples))));
          trend = detect_trend values;
        }
          ∷ []

    unfoldable pub analyze_pattern : ℕ → ℕ → ℕ → Time → Time → Option (List (UtilizationPattern fl))
    unfolding collect pattern_of
    analyze_pattern fuel weekday hour_of_day first last =
        collect fuel weekday hour_of_day first last >>= λ samples.
        some (pattern_of weekday hour_of_day samples)

    -- The two loops of `updatePatterns`.
    unfoldable pub analyze_hours :
        ℕ → ℕ → List ℕ → Time → Time → Option (List (UtilizationPattern fl))
    unfolding analyze_pattern
    analyze_hours fuel weekday [] first last = some []
    analyze_hours fuel weekday (h ∷ hs) first last = do
      found ← analyze_pattern fuel weekday h first last
      rest ← analyze_hours fuel weekday hs first last
      some (found ++ rest)

    unfoldable pub analyze_days : ℕ → List ℕ → Time → Time → Option (List (UtilizationPattern fl))
    unfolding analyze_hours
    analyze_days fuel [] first last = some []
    analyze_days fuel (d ∷ ds) first last = do
      found ← analyze_hours fuel d (up_to 0 24) first last
      rest ← analyze_days fuel ds first last
      some (found ++ rest)

    -- `updatePatterns` never returns an error; `none` is a lack of fuel.
    unfoldable pub update_patterns : ℕ → Time → Option (PredictiveScaler fl)
    unfolding analyze_days ◌-ℤ◌
    update_patterns fuel now = do
      patterns ← analyze_days fuel (up_to 0 7) (now -ℤ pos historical_lookback) now
      some (record { patterns = patterns; last_update = now })
