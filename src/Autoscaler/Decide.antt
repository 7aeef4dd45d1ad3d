-- ===== src/Autoscaler/Decide.antt =====
-- `analyzeClusterState` and what it calls.
use gpuautoscaler.Prelude.{
  ℕ, suc, ℤ, pos, Bool, true, false, Option, none, some, List, [], ◌∷◌, length, if◌then◌else◌,
  ltb_ℤ, leb_ℤ, ltb, add64, sub64, String, str_eq,
}
use gpuautoscaler.Prelude.Float.{Float64}
use gpuautoscaler.Prelude.Results.{Result, ok, err, ◌>>=◌, wrap_error}
use gpuautoscaler.Prelude.Time.{Time, time_sub}
use gpuautoscaler.Kube.{Pod, Node, text_at}
use gpuautoscaler.Autoscaler.Model.{
  NodePoolConfig, AutoscalerConfig, Reason, ScalingDecision, ScalingPrediction, Controller,
  GpuMetrics, scale_up, scale_down, no_action, cluster_stable, pending_pods_waiting,
  utilization_exceeds, utilization_below, load_predicted, capacity_type_label, spot, on_demand,
}
use gpuautoscaler.Autoscaler.Observe.{
  get_gpu_nodes, get_pending_gpu_pods, oldest_from, get_average_gpu_utilization,
  count_underutilized_nodes,
}

abbrev pub has_capacity_type : String → Node → Bool
has_capacity_type kind node = str_eq (text_at capacity_type_label node.labels) kind

unfoldable pub count_spot : List Node → ℕ
count_spot [] = 0
count_spot (n ∷ ns) =
    let rest = count_spot ns in if has_capacity_type spot n then suc rest else rest

-- The first pool of a capacity type, or `fallback` behind the last.
unfoldable pub pool_of_type : String → String → List NodePoolConfig → String
pool_of_type kind fallback [] = fallback
pool_of_type kind fallback (p ∷ ps) =
    if str_eq p.capacity_type kind then p.name else pool_of_type kind fallback ps

abbrev first_pool : List NodePoolConfig → String
first_pool [] = "default"
first_pool (p ∷ ps) = p.name

unfoldable pub get_preferred_node_pool : List NodePoolConfig → String → String
unfolding pool_of_type
get_preferred_node_pool pools kind = pool_of_type kind (first_pool pools) pools

unfoldable pub get_node_pool_by_name : List NodePoolConfig → String → Option NodePoolConfig
get_node_pool_by_name [] name = none
get_node_pool_by_name (p ∷ ps) name =
    if str_eq p.name name then some p else get_node_pool_by_name ps name

unfoldable pub select_nodes_for_scale_down : List Node → String
select_nodes_for_scale_down [] = on_demand
select_nodes_for_scale_down (n ∷ ns) =
    if has_capacity_type spot n then spot else select_nodes_for_scale_down ns

-- The loop of `calculateScalingPriority`.
abbrev higher : ℤ → Option ℤ → ℤ
higher top none = top
higher top (some p) = if ltb_ℤ top p then p else top

unfoldable pub max_priority : ℤ → List Pod → ℤ
max_priority top [] = top
max_priority top (p ∷ ps) = max_priority (higher top p.priority) ps

-- Whether the oldest pending pod has waited longer than the timeout.
unfoldable pub waits_too_long : Time → ℤ → List Pod → Bool
unfolding oldest_from time_sub
waits_too_long now timeout [] = false
waits_too_long now timeout (p ∷ ps) = ltb_ℤ timeout (time_sub now (oldest_from p ps).created)

module _ (fl : Float64) where
  unfoldable pub should_scale_up : Controller fl → Time → List Node → List Pod → fl.F → Bool
  unfolding waits_too_long time_sub
  should_scale_up r now nodes pods utilization =
      if ltb_ℤ (time_sub now r.last_scale_up_time) r.config.scale_up_cooldown
      then false
      else if leb_ℤ r.config.max_nodes (pos (length nodes))
      then false
      else if waits_too_long now r.config.pending_pod_timeout pods
      then true
      else if fl.lt r.config.scale_up_threshold utilization
      then ltb 0 (length nodes)
      else false

  unfoldable pub should_scale_down : Controller fl → Time → List Node → fl.F → ℕ → Bool
  unfolding time_sub
  should_scale_down r now nodes utilization underutilized =
      if ltb_ℤ (time_sub now r.last_scale_down_time) r.config.scale_down_cooldown
      then false
      else if leb_ℤ (pos (length nodes)) r.config.min_nodes
      then false
      else if ltb 0 underutilized
      then fl.lt utilization r.config.scale_down_threshold
      else false

  abbrev pub scale_up_reason : AutoscalerConfig fl → List Pod → fl.F → Reason fl
  scale_up_reason config [] utilization = utilization_exceeds utilization config.scale_up_threshold
  scale_up_reason config pods utilization = pending_pods_waiting (length pods)

  unfoldable pub calculate_scale_up_node_count : AutoscalerConfig fl → List Node → List Pod → ℤ
  unfolding add64
  calculate_scale_up_node_count config nodes pods =
      let needed =
        fl.trunc (fl.ceil (fl.div (fl.of_int (pos (length pods))) (fl.of_int (pos 4)))) in
      let target = add64 (pos (length nodes)) needed in
      if ltb_ℤ config.max_nodes target then config.max_nodes else target

  unfoldable pub calculate_scale_down_node_count : AutoscalerConfig fl → List Node → ℕ → ℤ
  unfolding sub64
  calculate_scale_down_node_count config nodes underutilized =
      let fifth = fl.mul (fl.of_int (pos (length nodes))) (fl.lit 2 1) in
      let removed = fl.trunc (fl.fmin (fl.of_int (pos underutilized)) fifth) in
      let target = sub64 (pos (length nodes)) removed in
      if ltb_ℤ target config.min_nodes then config.min_nodes else target

  -- The capacity type of a new node and its pool.
  unfoldable pub select_capacity_type : AutoscalerConfig fl → List Node → String × String
  unfolding count_spot get_preferred_node_pool
  select_capacity_type config nodes =
      let share = fl.div (fl.of_int (pos (count_spot nodes))) (fl.of_int (pos (length nodes))) in
      let kind = if fl.lt share config.spot_instance_percentage then spot else on_demand in
      (kind, get_preferred_node_pool config.node_pools kind)

  -- What a reconciliation sees: the API's lists, the collector's answers, the prediction and the time.
  pub record Sight : Type 0 where
    pub nodes : Result (List Node)
    pub pods : Result (List Pod)
    pub gpu_metrics : Result (List (GpuMetrics fl))
    pub node_metrics : String → Result (List (GpuMetrics fl))
    pub prediction : ScalingPrediction fl
    pub now : Time

  abbrev pub or_none : Result fl.F → fl.F
  or_none (ok u) = u
  or_none (err e) = fl.of_int (pos 0)

  -- `applyPredictiveScaling`
  unfoldable pub apply_predictive_scaling :
      ScalingPrediction fl → ScalingDecision fl → ScalingDecision fl
  apply_predictive_scaling p d =
      if p.should_pre_warm
      then (if ltb_ℤ d.desired_node_count p.recommended_nodes
          then record d {
            action = scale_up;
            reason = load_predicted p.predicted_utilization;
            desired_node_count = p.recommended_nodes;
          }
          else d)
      else d

  -- The decision before the prediction, from the lists and the utilization.
  unfoldable pub decide :
      Controller fl → Time → List Node → List Pod → fl.F → ℕ → ScalingDecision fl
  unfolding should_scale_up should_scale_down calculate_scale_up_node_count
      calculate_scale_down_node_count select_capacity_type max_priority select_nodes_for_scale_down
  decide r now nodes pods utilization underutilized =
      let d : ScalingDecision fl = record {
        action = no_action;
        reason = cluster_stable;
        desired_node_count = pos (length nodes);
        capacity_type = "";
        node_pool = "";
        priority = pos 0;
        gpu_utilization = utilization;
        pending_pods = length pods;
        underutilized_nodes = underutilized;
      } in
      if should_scale_up r now nodes pods utilization
      then record d {
        action = scale_up;
        reason = scale_up_reason r.config pods utilization;
        desired_node_count = calculate_scale_up_node_count r.config nodes pods;
        capacity_type = (select_capacity_type r.config nodes).0;
        node_pool = (select_capacity_type r.config nodes).1;
        priority = max_priority (pos 0) pods;
      }
      else if should_scale_down r now nodes utilization underutilized
      then record d {
        action = scale_down;
        reason = utilization_below utilization r.config.scale_down_threshold underutilized;
        desired_node_count = calculate_scale_down_node_count r.config nodes underutilized;
        capacity_type = select_nodes_for_scale_down nodes;
      }
      else d

  unfoldable pub analyze_cluster_state : Controller fl → Sight → Result (ScalingDecision fl)
  unfolding decide apply_predictive_scaling get_gpu_nodes get_pending_gpu_pods
      get_average_gpu_utilization count_underutilized_nodes
  analyze_cluster_state r s = do
    nodes ← wrap_error "failed to get GPU nodes" (get_gpu_nodes s.nodes)
    pods ← wrap_error "failed to get pending GPU pods" (get_pending_gpu_pods s.pods)
    let utilization = or_none (get_average_gpu_utilization fl s.gpu_metrics)
    let underutilized = count_underutilized_nodes fl r.config s.node_metrics nodes
    let d = decide r s.now nodes pods utilization underutilized
    ok (if r.config.enable_predictive_scaling then apply_predictive_scaling s.prediction d else d)
