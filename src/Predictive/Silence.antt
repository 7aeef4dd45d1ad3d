-- ===== src/Predictive/Silence.antt =====
-- What `updatePatterns` finds in its lookback of a week, and what follows for the forecasts.
use gpuautoscaler.Prelude.{
  ℕ, ◌*◌, ◌≤◌, ◌≡◌, refl, pos, ◌+ℤ◌, ◌-ℤ◌, ◌≤ℤ◌, int_laws, ltb_ℤ, true, Bool-cases, some, inl, inr,
  List, [], ◌∷◌, length, arith, ltb, lt→ltb,
}
use gpuautoscaler.Prelude.Float.{Float64}
use gpuautoscaler.Prelude.Results.{Result}
use gpuautoscaler.Prelude.Time.{Time, zero_time, time_sub}
use gpuautoscaler.Autoscaler.Model.{GpuMetrics, ScalingPrediction}
use gpuautoscaler.Predictive.Model.{
  Calendar, IsRegular, PredictiveScaler, day, hour, historical_lookback,
}
use gpuautoscaler.Predictive.Patterns.{
  Sample, up_to, pattern_of, analyze_pattern, analyze_hours, analyze_days, update_patterns,
}
use gpuautoscaler.Predictive.Forecast.{
  predict, refreshed, predict_future_load, no_prediction, find_similar_patterns,
}
use gpuautoscaler.Predictive.Sampling.{hits_week, collect_total}

-- The rounds of `analyzePattern` that the model allows.
abbrev pub rounds : ℕ
rounds = 8

module _ (fl : Float64) (c : Calendar) where
  -- The scaler that `NewPredictiveScaler` makes.
  abbrev pub new_predictive_scaler : PredictiveScaler fl
  new_predictive_scaler = record { patterns = []; last_update = zero_time }

  -- The scalers that calls of `PredictFutureLoad` lead to, each at its own time and with its own metrics.
  pub data Reached : PredictiveScaler fl → Type 0 where
    new : Reached new_predictive_scaler
    asked :
        {p p' : PredictiveScaler fl} {prediction : ScalingPrediction fl}
        (metrics_at : Time → Result (List (GpuMetrics fl))) (now : Time)
        → Reached p
        → predict_future_load fl c metrics_at rounds now p ≡ some (p', prediction)
        → Reached p'

module _ (fl : Float64) (c : Calendar) (r : IsRegular c) where
  few_samples :
      (weekday hour_of_day : ℕ) (samples : List (Sample fl))
      → length samples ≤ 1
      → ltb (length samples) 3 ≡ true
  few_samples weekday hour_of_day samples h = lt→ltb (length samples) 3 (omega arith)

  module _ (metrics_at : Time → Result (List (GpuMetrics fl))) where
    pattern_of_few :
        (weekday hour_of_day : ℕ) (samples : List (Sample fl))
        → length samples ≤ 1
        → pattern_of fl c metrics_at weekday hour_of_day samples ≡ []
    unfolding pattern_of
    pattern_of_few weekday hour_of_day samples h =
        rw (few_samples weekday hour_of_day samples h) refl

    week_ends : (now : Time) → now ≤ℤ (now -ℤ pos historical_lookback) +ℤ pos (7 * day)
    week_ends now = omega int_laws

    analyze_pattern_none :
        (weekday hour_of_day : ℕ) (now : Time)
        → analyze_pattern fl c metrics_at rounds weekday hour_of_day
            (now -ℤ pos historical_lookback)
            now
          ≡ some []
    unfolding analyze_pattern
    analyze_pattern_none weekday hour_of_day now =
        let first = now -ℤ pos historical_lookback in
        let (samples, e, few) =
          collect_total fl c metrics_at r 7 weekday hour_of_day first now (week_ends now) in
        let once = hits_week (c.weekday first) weekday (r.weekday_lt first) in
        rw (e, pattern_of_few weekday hour_of_day samples (omega arith)) refl

    analyze_hours_none :
        (weekday : ℕ) (hs : List ℕ) (now : Time)
        → analyze_hours fl c metrics_at rounds weekday hs (now -ℤ pos historical_lookback) now
          ≡ some []
    unfolding analyze_hours
    analyze_hours_none weekday [] now = refl
    analyze_hours_none weekday (h ∷ hs) now =
        rw (analyze_pattern_none weekday h now, analyze_hours_none weekday hs now) refl

    analyze_days_none :
        (ds : List ℕ) (now : Time)
        → analyze_days fl c metrics_at rounds ds (now -ℤ pos historical_lookback) now ≡ some []
    unfolding analyze_days
    analyze_days_none [] now = refl
    analyze_days_none (d ∷ ds) now =
        rw (analyze_hours_none d (up_to 0 24) now, analyze_days_none ds now) refl

    -- Where no day has more or less than 24 hours, eight rounds of each loop are enough for
    -- `updatePatterns` to return, and whatever the metrics are it finds no pattern.
    pub update_patterns_none :
        (now : Time)
        → update_patterns fl c metrics_at rounds now
          ≡ some (record { patterns = []; last_update = now })
    unfolding update_patterns
    update_patterns_none now = rw (analyze_days_none (up_to 0 7) now) refl

  module _ (metrics_at : Time → Result (List (GpuMetrics fl))) (now : Time) where
    predict_none :
        (p : PredictiveScaler fl) → p.patterns ≡ [] → predict fl c now p ≡ no_prediction fl
    unfolding predict find_similar_patterns
    predict_none p h = rw h refl

    refreshed_none :
        (p : PredictiveScaler fl)
        → p.patterns ≡ []
        → (p' : PredictiveScaler fl) × (refreshed fl c metrics_at rounds now p ≡ some p')
          × (p'.patterns ≡ [])
    unfolding refreshed
    refreshed_none p h = elim (Bool-cases (ltb_ℤ (pos hour) (time_sub now p.last_update))) [
      | inl old ↦ (
        record { patterns = []; last_update = now },
        rw old (update_patterns_none metrics_at now),
        refl,
      )
      | inr recent ↦ (p, rw recent refl, h)
    ]

    pub predict_future_load_none :
        (p : PredictiveScaler fl)
        → p.patterns ≡ []
        → (p' : PredictiveScaler fl) × (predict_future_load fl c metrics_at rounds now p
            ≡ some (p', no_prediction fl))
          × (p'.patterns ≡ [])
    unfolding predict_future_load
    predict_future_load_none p h =
        let (p', e, none_left) = refreshed_none p h in
        (p', rw (e, predict_future_load, predict_none p' none_left) refl, none_left)

  pub Reached-patterns : {p : PredictiveScaler fl} → Reached fl c p → p.patterns ≡ []
  Reached-patterns new = refl
  Reached-patterns (asked {p} metrics_at now before e) =
      let (p', same, none_left) =
        predict_future_load_none metrics_at now p (Reached-patterns before) in
      cc
