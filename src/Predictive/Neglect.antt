-- ===== src/Predictive/Neglect.antt =====
-- The controller of pkg/autoscaler/controller.go with the forecasts of pkg/autoscaler/predictive_scaler.go.
use gpuautoscaler.Prelude.{
  ℕ, ◌≡◌, refl, Bool, true, false, some, List, [], ◌∷◌, String, if◌then◌else◌,
}
use gpuautoscaler.Prelude.Float.{Float64}
use gpuautoscaler.Prelude.Results.{Result, ok, err}
use gpuautoscaler.Prelude.Time.{Time}
use gpuautoscaler.Autoscaler.Model.{GpuMetrics, ScalingPrediction, ScalingDecision, Controller}
use gpuautoscaler.Kube.{Pod, Node}
use gpuautoscaler.Autoscaler.Decide.{
  Sight, decide, analyze_cluster_state, apply_predictive_scaling, should_scale_up,
  should_scale_down, calculate_scale_up_node_count, calculate_scale_down_node_count,
  select_capacity_type,
}
use gpuautoscaler.Autoscaler.Observe.{
  count_underutilized_nodes, get_gpu_nodes, get_pending_gpu_pods,
}
use gpuautoscaler.Predictive.Model.{Calendar, IsRegular, PredictiveScaler}
use gpuautoscaler.Predictive.Forecast.{predict_future_load, no_prediction}
use gpuautoscaler.Predictive.Silence.{rounds, Reached, Reached-patterns, predict_future_load_none}

-- The controller with prediction turned off.
abbrev pub without_prediction : {fl : Float64} → Controller fl → Controller fl
without_prediction r = record r { config = record r.config { enable_predictive_scaling = false } }

module _ (fl : Float64) (r : Controller fl) where
  decide-without_prediction :
      (now : Time) (nodes : List Node) (pods : List Pod) (utilization : fl.F) (underutilized : ℕ)
      → decide fl r now nodes pods utilization underutilized
        ≡ decide fl (without_prediction r) now nodes pods utilization underutilized
  unfolding decide should_scale_up should_scale_down calculate_scale_up_node_count
      calculate_scale_down_node_count select_capacity_type
  decide-without_prediction now nodes pods utilization underutilized = refl

  count-without_prediction :
      (metrics_for : String → Result (List (GpuMetrics fl))) (nodes : List Node)
      → count_underutilized_nodes fl r.config metrics_for nodes
        ≡ count_underutilized_nodes fl (without_prediction r).config metrics_for nodes
  unfolding count_underutilized_nodes
  count-without_prediction metrics_for [] = refl
  count-without_prediction metrics_for (n ∷ ns) = rw (count-without_prediction metrics_for ns) refl

  apply-no_prediction :
      (b : Bool) (d : ScalingDecision fl)
      → (if b then apply_predictive_scaling fl (no_prediction fl) d else d) ≡ d
  unfolding apply_predictive_scaling
  apply-no_prediction true d = refl
  apply-no_prediction false d = refl

  analyze-by_lists :
      (s : Sight fl) (nodes : Result (List Node)) (pods : Result (List Pod))
      → get_gpu_nodes s.nodes ≡ nodes
      → get_pending_gpu_pods s.pods ≡ pods
      → analyze_cluster_state fl r (record s { prediction = no_prediction fl })
        ≡ analyze_cluster_state fl (without_prediction r) s
  unfolding analyze_cluster_state
  analyze-by_lists s (err e) pods n p = rw (n, analyze_cluster_state) refl
  analyze-by_lists s (ok nodes) (err e) n p = rw (n, p, analyze_cluster_state) refl
  analyze-by_lists s (ok nodes) (ok pods) n p =
      rw
        (
          n, p, analyze_cluster_state, apply-no_prediction, decide-without_prediction,
          count-without_prediction,
        )
        refl

  -- The controller decides as if its configuration had no prediction.
  analyze-no_prediction :
      (s : Sight fl)
      → analyze_cluster_state fl r (record s { prediction = no_prediction fl })
        ≡ analyze_cluster_state fl (without_prediction r) s
  analyze-no_prediction s = analyze-by_lists s _ _ refl refl

-- Where no day has more or less than 24 hours, a predictive scaler answers every call, whatever calls
-- came before it, and the controller then decides as if prediction were turned off.
pub predict_future_load-analyze_cluster_state :
    (fl : Float64) (c : Calendar)
    → IsRegular c
    → (metrics_at : Time → Result (List (GpuMetrics fl))) (now : Time) (p : PredictiveScaler fl)
    → Reached fl c p
    → (r : Controller fl) (s : Sight fl)
    → (p' : PredictiveScaler fl) × (prediction : ScalingPrediction fl) × (predict_future_load fl c
          metrics_at rounds now p
        ≡ some (p', prediction))
      × (analyze_cluster_state fl r (record s { prediction = prediction })
          ≡ analyze_cluster_state fl (without_prediction r) s)
predict_future_load-analyze_cluster_state fl c regular metrics_at now p reached r s =
    let (p', answered, none_left) =
      predict_future_load_none fl c regular metrics_at now p
        (Reached-patterns fl c regular reached) in
    (p', no_prediction fl, answered, analyze-no_prediction fl r s)
