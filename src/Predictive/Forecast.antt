-- ===== src/Predictive/Forecast.antt =====
-- `PredictFutureLoad` and what it does with the patterns. The clock is read once in a call.
use gpuautoscaler.Prelude.{
  ℕ, ◌+◌, ◌*◌, ◌-◌, ℤ, pos, ◌-ℤ◌, Bool, true, false, Option, none, some, List, [], ◌∷◌, map, keep,
  length, ltb, ltb_ℤ, quot_ℤ, if◌then◌else◌, ◌==◌,
}
use gpuautoscaler.Prelude.Float.{Float64}
use gpuautoscaler.Prelude.Results.{Result}
use gpuautoscaler.Prelude.Time.{Time, Duration, time_sub, minute}
use gpuautoscaler.Autoscaler.Model.{GpuMetrics, ScalingPrediction}
use gpuautoscaler.Predictive.Model.{Calendar, UtilizationPattern, PredictiveScaler, hour}
use gpuautoscaler.Predictive.Patterns.{average, sum_int, update_patterns}

-- a - b of two small natural numbers, as an `int`.
abbrev pub minus : ℕ → ℕ → ℤ
minus a b = pos a -ℤ pos b

module _ (fl : Float64) where
  abbrev pub distance : ℕ → ℕ → fl.F
  distance a b = fl.abs (fl.of_int (minus a b))

  abbrev pub day_similarity : ℕ → ℕ → fl.F
  day_similarity a b =
      if a == b
      then fl.of_int (pos 1)
      else if fl.eq (distance a b) (fl.of_int (pos 1))
      then fl.lit 5 1
      else fl.of_int (pos 0)

  abbrev pub hour_similarity : fl.F → fl.F
  hour_similarity diff =
      if fl.eq diff (fl.of_int (pos 0))
      then fl.of_int (pos 1)
      else if fl.eq diff (fl.of_int (pos 1))
      then fl.lit 7 1
      else if fl.eq diff (fl.of_int (pos 2))
      then fl.lit 4 1
      else fl.of_int (pos 0)

  unfoldable pub calculate_similarity : UtilizationPattern fl → ℕ → ℕ → fl.F
  unfolding ◌-ℤ◌
  calculate_similarity p target_day target_hour =
      fl.add (fl.mul (day_similarity p.day_of_week target_day) (fl.lit 7 1))
        (fl.mul (hour_similarity (distance p.hour_of_day target_hour)) (fl.lit 3 1))

  unfoldable pub find_similar_patterns :
      Calendar → Time → List (UtilizationPattern fl) → List (UtilizationPattern fl)
  unfolding calculate_similarity
  find_similar_patterns c target patterns =
      keep (λ p. fl.lt (fl.lit 7 1) (calculate_similarity p (c.weekday target) (c.hour_of target)))
        patterns

  -- Each weight is 1.
  unfoldable pub weighted_sums : List (UtilizationPattern fl) → fl.F → fl.F → fl.F × fl.F
  weighted_sums [] sum weight = (sum, weight)
  weighted_sums (p ∷ ps) sum weight =
      let one = fl.of_int (pos 1) in
      weighted_sums ps (fl.add sum (fl.mul p.avg_utilization one)) (fl.add weight one)

  unfoldable pub calculate_weighted_prediction : List (UtilizationPattern fl) → fl.F
  unfolding weighted_sums
  calculate_weighted_prediction [] = fl.of_int (pos 0)
  calculate_weighted_prediction ps =
      let (sum, weight) = weighted_sums ps (fl.of_int (pos 0)) (fl.of_int (pos 0)) in
      fl.div sum weight

  unfoldable pub predict_pod_count : List (UtilizationPattern fl) → ℤ
  unfolding sum_int
  predict_pod_count [] = pos 0
  predict_pod_count ps =
      quot_ℤ (sum_int fl (map (λ (p : UtilizationPattern fl). p.pods_count) ps) (pos 0)) (length ps)

  unfoldable pub sum_squares : fl.F → List fl.F → fl.F → fl.F
  sum_squares mean [] sum = sum
  sum_squares mean (v ∷ vs) sum =
      let diff = fl.sub v mean in sum_squares mean vs (fl.add sum (fl.mul diff diff))

  unfoldable pub variance : List fl.F → fl.F
  unfolding sum_squares average
  variance [] = fl.of_int (pos 0)
  variance vs =
      fl.div (sum_squares (average fl vs) vs (fl.of_int (pos 0))) (fl.of_int (pos (length vs)))

  unfoldable pub calculate_confidence : List (UtilizationPattern fl) → fl.F
  unfolding variance
  calculate_confidence ps =
      let one = fl.of_int (pos 1) in
      let dev = fl.sqrt (variance (map (λ (p : UtilizationPattern fl). p.avg_utilization) ps)) in
      let confidence = fl.fmax (fl.of_int (pos 0)) (fl.sub one (fl.mul dev (fl.of_int (pos 2)))) in
      let boost = fl.fmin (fl.lit 2 1) (fl.mul (fl.of_int (pos (length ps))) (fl.lit 5 2)) in
      if ltb (length ps) 2 then fl.lit 3 1 else fl.fmin one (fl.add confidence boost)

  unfoldable pub calculate_recommended_nodes : fl.F → ℤ → ℤ
  calculate_recommended_nodes utilization pods =
      let base = fl.trunc (fl.ceil (fl.div (fl.of_int pods) (fl.of_int (pos 8)))) in
      fl.trunc (fl.ceil (fl.mul (fl.of_int base) (fl.div utilization (fl.lit 8 1))))

  -- The hour of the pattern with the highest peak above `top`, else `found`.
  unfoldable pub peak_hour : fl.F → ℕ → List (UtilizationPattern fl) → ℕ
  peak_hour top found [] = found
  peak_hour top found (p ∷ ps) =
      let higher = fl.lt top p.peak_utilization in
      peak_hour (if higher then p.peak_utilization else top)
        (if higher then p.hour_of_day else found) ps

  unfoldable pub estimate_time_until_peak :
      Calendar → Time → List (UtilizationPattern fl) → Duration
  unfolding peak_hour
  estimate_time_until_peak c now [] = pos 0
  estimate_time_until_peak c now ps =
      let target = peak_hour (fl.of_int (pos 0)) 0 ps in
      let current = c.hour_of now in
      if ltb target current
      then pos ((target + 24 - current) * hour)
      else pos ((target - current) * hour)

  abbrev pub no_prediction : ScalingPrediction fl
  no_prediction = record {
    predicted_utilization = fl.of_int (pos 0);
    predicted_pods = pos 0;
    recommended_nodes = pos 0;
    should_pre_warm = false;
    confidence = fl.of_int (pos 0);
    time_until_peak = pos 0;
  }

  -- The prediction from the patterns that were found similar.
  abbrev pub prediction_from : Calendar → Time → List (UtilizationPattern fl) → ScalingPrediction fl
  prediction_from c now [] = no_prediction
  prediction_from c now similar =
      let utilization = calculate_weighted_prediction similar in
      let pods = predict_pod_count similar in
      let confidence = calculate_confidence similar in
      let seen = record no_prediction {
        predicted_utilization = utilization;
        predicted_pods = pods;
        confidence = confidence;
      } in
      if (if fl.lt (fl.lit 7 1) utilization then fl.lt (fl.lit 7 1) confidence else false)
      then record seen {
        should_pre_warm = true;
        recommended_nodes = calculate_recommended_nodes utilization pods;
        time_until_peak = estimate_time_until_peak c now similar;
      }
      else seen

  unfoldable pub predict : Calendar → Time → PredictiveScaler fl → ScalingPrediction fl
  unfolding find_similar_patterns calculate_weighted_prediction predict_pod_count
      calculate_confidence calculate_recommended_nodes estimate_time_until_peak
  predict c now p = prediction_from c now (find_similar_patterns c now p.patterns)

  -- The scaler with patterns that are at most an hour old; `none` is a lack of fuel.
  unfoldable pub refreshed :
      Calendar
      → (Time → Result (List (GpuMetrics fl)))
      → ℕ
      → Time
      → PredictiveScaler fl
      → Option (PredictiveScaler fl)
  unfolding update_patterns time_sub
  refreshed c metrics_at fuel now p =
      if ltb_ℤ (pos hour) (time_sub now p.last_update)
      then update_patterns fl c metrics_at fuel now
      else some p

  -- `PredictFutureLoad`: the scaler behind it and the prediction.
  unfoldable pub predict_future_load :
      Calendar
      → (Time → Result (List (GpuMetrics fl)))
      → ℕ
      → Time
      → PredictiveScaler fl
      → Option (PredictiveScaler fl × ScalingPrediction fl)
  unfolding refreshed predict
  predict_future_load c metrics_at fuel now p = elim (refreshed c metrics_at fuel now p) [
    | none ↦ none
    | some p' ↦ some (p', predict c now p')
  ]

  pub record BusyPeriod : Type 0 where
    pub day_of_week : ℕ
    pub start_hour : ℕ
    pub duration : Duration
    pub utilization : fl.F
    pub recurring : Bool

  abbrev pub busy_period : UtilizationPattern fl → BusyPeriod
  busy_period p = record {
    day_of_week = p.day_of_week;
    start_hour = p.hour_of_day;
    duration = p.duration;
    utilization = p.avg_utilization;
    recurring = true;
  }

  unfoldable pub analyze_busy_periods : List (UtilizationPattern fl) → List BusyPeriod
  analyze_busy_periods patterns =
      map busy_period
        (keep (λ (p : UtilizationPattern fl). fl.lt (fl.lit 6 1) p.avg_utilization) patterns)

  pub record PreWarmEvent : Type 0 where
    pub day_of_week : ℕ
    pub pre_warm_time : Duration
    pub target_nodes : ℤ
    pub expected_load : fl.F

  abbrev pub pre_warm_event : BusyPeriod → PreWarmEvent
  pre_warm_event b = record {
    day_of_week = b.day_of_week;
    pre_warm_time = pos (b.start_hour * hour) -ℤ pos (30 * minute);
    target_nodes = calculate_recommended_nodes b.utilization (pos 0);
    expected_load = b.utilization;
  }

  unfoldable pub get_pre_warm_schedule : List (UtilizationPattern fl) → List PreWarmEvent
  unfolding analyze_busy_periods calculate_recommended_nodes ◌-ℤ◌
  get_pre_warm_schedule patterns = map pre_warm_event (analyze_busy_periods patterns)
