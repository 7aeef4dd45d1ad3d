-- ===== src/Predictive/Examples.antt =====
-- Tests of pkg/autoscaler/predictive_scaler.go, and its theorems at a calendar of UTC.
use gpuautoscaler.Prelude.{
  ℕ, suc, ◌+◌, ◌-◌, ◌*◌, ◌/◌, ◌%◌, ◌<◌, ◌≤◌, ◌≡◌, refl, pos, negsuc, ◌+ℤ◌, ◌-ℤ◌, sub_ℕ, true, some,
  List, [], ◌∷◌, map, arith, length, String,
}
use gpuautoscaler.Prelude.Fixed.{fixed, root_bits}
use gpuautoscaler.Prelude.Results.{Result, message, ok, err}
use gpuautoscaler.Prelude.Time.{Time}
use gpuautoscaler.Autoscaler.Model.{GpuMetrics, AutoscalerConfig, Controller, ScalingPrediction}
use gpuautoscaler.Autoscaler.Decide.{Sight, analyze_cluster_state}
use gpuautoscaler.Predictive.Model.{
  Calendar, IsRegular, UtilizationPattern, PredictiveScaler, hour, day, historical_lookback,
}
use gpuautoscaler.Predictive.Patterns.{Sample, collect, update_patterns}
use gpuautoscaler.Predictive.Forecast.{
  predict_future_load, find_similar_patterns, predict, get_pre_warm_schedule, PreWarmEvent,
}
use gpuautoscaler.Predictive.Sampling.{hits, collect_total}
use gpuautoscaler.Predictive.Silence.{rounds, new_predictive_scaler, new, update_patterns_none}
use gpuautoscaler.Predictive.Neglect.{without_prediction, predict_future_load-analyze_cluster_state}

-- 1 January 1970 was a Thursday.
weekday_utc : Time → ℕ
weekday_utc (pos n) = (n / day + 4) % 7
weekday_utc (negsuc n) = (10 - n / day % 7) % 7

abbrev hour_utc : Time → ℕ
hour_utc (pos n) = n % day / hour
hour_utc (negsuc n) = 23 - n % day / hour

abbrev utc : Calendar
utc = record { weekday = weekday_utc; hour_of = hour_utc }

weekday_utc-lt : (t : Time) → weekday_utc t < 7
unfolding weekday_utc
weekday_utc-lt (pos n) = omega arith
weekday_utc-lt (negsuc n) = omega arith

weekday_utc-sub : (n : ℕ) → weekday_utc (sub_ℕ day (suc n + 0)) ≡ (weekday_utc (negsuc n) + 1) % 7
unfolding weekday_utc
weekday_utc-sub n = ground arith

weekday_utc-next : (t : Time) → weekday_utc (t +ℤ pos day) ≡ (weekday_utc t + 1) % 7
unfolding ◌+ℤ◌ weekday_utc
weekday_utc-next (pos n) = ground arith
weekday_utc-next (negsuc n) = weekday_utc-sub n

abbrev utc-IsRegular : IsRegular utc
utc-IsRegular = record { weekday_lt = weekday_utc-lt; next_day = weekday_utc-next }

abbrev a_monday : Time
a_monday = pos (4 * day + 9 * hour)

abbrev seen_on : String → GpuMetrics fixed
seen_on pod = record { pod_name = pod; node_name = "a"; gpu_utilization = fixed.lit 9 1 }

abbrev busy : Time → Result (List (GpuMetrics fixed))
busy t = ok (seen_on "p" ∷ seen_on "q" ∷ seen_on "p" ∷ [])

abbrev pattern_at : ℕ → ℕ → UtilizationPattern fixed
pattern_at weekday hour_of_day = record {
  day_of_week = weekday;
  hour_of_day = hour_of_day;
  duration = pos hour;
  avg_utilization = fixed.lit 9 1;
  peak_utilization = fixed.lit 95 2;
  pods_count = pos 16;
  trend = "stable";
}

-- The same hour, two hours before, three hours after, and the same hour of the day before.
abbrev week : List (UtilizationPattern fixed)
week = pattern_at 1 9 ∷ pattern_at 1 7 ∷ pattern_at 1 12 ∷ pattern_at 0 9 ∷ []

similar_week : find_similar_patterns fixed utc a_monday week ≡ pattern_at 1 9 ∷ pattern_at 1 7 ∷ []
unfolding find_similar_patterns weekday_utc
similar_week = refl

forecast_week :
    (predict fixed utc a_monday
      (record { patterns = week; last_update = a_monday })).should_pre_warm
    ≡ true
unfolding predict weekday_utc root_bits
forecast_week = refl

-- No event asks for a node, whatever its load.
warm_week :
    map (λ (e : PreWarmEvent fixed). e.target_nodes) (get_pre_warm_schedule fixed week)
    ≡ pos 0 ∷ pos 0 ∷ pos 0 ∷ pos 0 ∷ []
unfolding get_pre_warm_schedule
warm_week = refl

collect_total_example :
    (samples : List (Sample fixed)) × (collect fixed utc busy 8 1 9
        (a_monday -ℤ pos historical_lookback)
        a_monday
      ≡ some samples)
    × (length samples ≤ hits 7 (weekday_utc (a_monday -ℤ pos historical_lookback)) 1)
unfolding ◌-ℤ◌ ◌+ℤ◌
collect_total_example =
    collect_total fixed utc busy utc-IsRegular 7 1 9 (a_monday -ℤ pos historical_lookback) a_monday
      (omega arith)

update_patterns_none_example :
    update_patterns fixed utc busy rounds a_monday
    ≡ some (record { patterns = []; last_update = a_monday })
update_patterns_none_example = update_patterns_none fixed utc utc-IsRegular busy a_monday

abbrev cluster : Sight fixed
cluster = record {
  nodes = ok [];
  pods = ok [];
  gpu_metrics = ok [];
  node_metrics = λ name. err (message "none");
  prediction = record {
    predicted_utilization = fixed.lit 9 1;
    predicted_pods = pos 20;
    recommended_nodes = pos 4;
    should_pre_warm = true;
    confidence = fixed.lit 8 1;
    time_until_peak = pos 0;
  };
  now = pos 1000;
}

abbrev settings : AutoscalerConfig fixed
settings = record {
  reconcile_interval = pos 30;
  scale_up_threshold = fixed.lit 8 1;
  scale_down_threshold = fixed.lit 2 1;
  scale_up_cooldown = pos 0;
  scale_down_cooldown = pos 0;
  pending_pod_timeout = pos 50;
  max_nodes = pos 10;
  min_nodes = pos 1;
  spot_instance_percentage = fixed.lit 6 1;
  enable_predictive_scaling = true;
  node_pools = [];
}

abbrev predictive : Controller fixed
predictive = record {
  config = settings;
  last_scale_up_time = pos 0;
  last_scale_down_time = pos 0;
  scaling_history = [];
}

predict_future_load-analyze_cluster_state_example :
    (p' : PredictiveScaler fixed) × (prediction : ScalingPrediction fixed) × (predict_future_load
        fixed utc busy rounds a_monday
        (new_predictive_scaler fixed utc)
      ≡ some (p', prediction))
    × (analyze_cluster_state fixed predictive (record cluster { prediction = prediction })
        ≡ analyze_cluster_state fixed (without_prediction predictive) cluster)
predict_future_load-analyze_cluster_state_example =
    predict_future_load-analyze_cluster_state fixed utc utc-IsRegular busy a_monday
      (new_predictive_scaler fixed utc) new predictive cluster
