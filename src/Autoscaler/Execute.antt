-- ===== src/Autoscaler/Execute.antt =====
-- `executeScalingAction`, `scaleUp`, `scaleDown`, `drainNode`, `recordScalingEvent` and `Reconcile`.
-- The answers of the API and of the cloud provider are arguments; the calls made are returned in order.
use gpuautoscaler.Prelude.{
  ℕ, ◌-◌, ℤ, pos, Bool, true, false, Option, none, some, List, [], ◌∷◌, ◌++◌, map, length, drop,
  if◌then◌else◌, ltb, ltb_ℤ, leb_ℤ, sub64, String,
}
use gpuautoscaler.Prelude.Float.{Float64}
use gpuautoscaler.Prelude.Results.{Error, message, wrapped, Result, ok, err}
use gpuautoscaler.Prelude.Time.{Time}
use gpuautoscaler.Kube.{Pod, Node}
use gpuautoscaler.Autoscaler.Model.{
  NodePoolConfig, ScalingAction, ScalingDecision, ScalingEvent, Controller, scale_up, scale_down,
  no_action, spot, on_demand,
}
use gpuautoscaler.Autoscaler.Observe.{get_gpu_nodes}
use gpuautoscaler.Autoscaler.Decide.{
  has_capacity_type, get_node_pool_by_name, Sight, analyze_cluster_state,
}

-- One loop of `selectNodesToRemove`: the nodes of a capacity type until `count` are chosen.
unfoldable pub take_nodes : String → ℤ → List Node → List Node → List Node
take_nodes kind count [] chosen = chosen
take_nodes kind count (n ∷ ns) chosen =
    let more =
      take_nodes kind count ns (if has_capacity_type kind n then chosen ++ n ∷ [] else chosen) in
    if leb_ℤ count (pos (length chosen)) then chosen else more

unfoldable pub select_nodes_to_remove : List Node → ℤ → List Node
unfolding take_nodes sub64
select_nodes_to_remove nodes target =
    let count = sub64 (pos (length nodes)) target in
    let spots = take_nodes spot count nodes [] in
    if leb_ℤ count (pos 0)
    then []
    else if ltb_ℤ (pos (length spots)) count
    then take_nodes on_demand count nodes spots
    else spots

pub data Call : Type 0 where
  cordon : String → Call
  evict : String → Call
  provider_scale_up : String → ℤ → Call
  provider_scale_down : String → Call

-- The answers of the API while a node is drained: to the update, to the list of its pods, and to the
-- lists at the ticks before the timeout. An eviction's answer is only logged.
pub record DrainAnswers : Type 0 where
  pub updated : Option Error
  pub listed : Result (List Pod)
  pub polled : List (Result (List Pod))

-- The `for { select … }` of `drainNode`.
unfoldable pub wait_for_eviction : List (Result (List Pod)) → Option Error
wait_for_eviction [] = some (message "timeout waiting for pods to be evicted")
wait_for_eviction (err e ∷ ticks) = some e
wait_for_eviction (ok [] ∷ ticks) = none
wait_for_eviction (ok (p ∷ ps) ∷ ticks) = wait_for_eviction ticks

abbrev pub evict_all : Result (List Pod) → List (Result (List Pod)) → Option Error × List Call
unfolding wait_for_eviction
evict_all (err e) ticks = (some (wrapped "failed to list pods" e), [])
evict_all (ok pods) ticks = (wait_for_eviction ticks, map (λ p. evict p.name) pods)

abbrev pub cordoned : Option Error → Node → DrainAnswers → Option Error × List Call
unfolding wait_for_eviction
cordoned (some e) node a =
    (some (wrapped "failed to mark node unschedulable" e), cordon node.name ∷ [])
cordoned none node a =
    let (outcome, calls) = evict_all a.listed a.polled in (outcome, cordon node.name ∷ calls)

unfoldable pub drain_node : DrainAnswers → Node → Option Error × List Call
unfolding wait_for_eviction
drain_node a node = cordoned a.updated node a

-- The body of the loop in `scaleDown`: an error of either call is logged, and the loop goes on.
abbrev pub removed : Option Error × List Call → Node → List Call
removed (some e, calls) node = calls
removed (none, calls) node = calls ++ provider_scale_down node.name ∷ []

unfoldable pub remove_nodes : (String → DrainAnswers) → List Node → List Call
unfolding drain_node
remove_nodes answers [] = []
remove_nodes answers (n ∷ ns) = removed (drain_node (answers n.name) n) n ++ remove_nodes answers ns

-- What the outside answers while an action is carried out, and the times that `time.Now` returns.
pub record Outside : Type 0 where
  pub scale_up_answer : Option Error
  pub nodes_later : Result (List Node)
  pub drains : String → DrainAnswers
  pub executed_at : Time
  pub recorded_at : Time

module _ (fl : Float64) where
  -- The controller, the error that is returned, and the calls made.
  abbrev pub Outcome : Type 0
  Outcome = Controller fl × Option Error × List Call

  abbrev pub provider_answered :
      Controller fl → Outside → NodePoolConfig → ℤ → Option Error → Outcome
  provider_answered r o pool count (some e) =
      (r, some (wrapped "failed to scale up" e), provider_scale_up pool.name count ∷ [])
  provider_answered r o pool count none = (
    record r { last_scale_up_time = o.executed_at },
    none,
    provider_scale_up pool.name count ∷ [],
  )

  abbrev pub in_pool :
      Controller fl → Outside → ScalingDecision fl → Option NodePoolConfig → Outcome
  in_pool r o d none = (r, some (message "node pool not found"), [])
  in_pool r o d (some pool) =
      let nodes_to_add = sub64 d.desired_node_count (sub64 d.desired_node_count (pos 1)) in
      provider_answered r o pool nodes_to_add o.scale_up_answer

  -- `scaleUp`
  unfoldable pub carry_out_scale_up : Controller fl → Outside → ScalingDecision fl → Outcome
  unfolding get_node_pool_by_name sub64
  carry_out_scale_up r o d = in_pool r o d (get_node_pool_by_name r.config.node_pools d.node_pool)

  abbrev pub drained : Controller fl → Outside → ScalingDecision fl → Result (List Node) → Outcome
  drained r o d (err e) = (r, some (wrapped "failed to get GPU nodes" e), [])
  drained r o d (ok nodes) = (
    record r { last_scale_down_time = o.executed_at },
    none,
    remove_nodes o.drains (select_nodes_to_remove nodes d.desired_node_count),
  )

  -- `scaleDown`
  unfoldable pub carry_out_scale_down : Controller fl → Outside → ScalingDecision fl → Outcome
  unfolding select_nodes_to_remove remove_nodes get_gpu_nodes
  carry_out_scale_down r o d = drained r o d (get_gpu_nodes o.nodes_later)

  abbrev pub dispatch : ScalingAction → Controller fl → Outside → ScalingDecision fl → Outcome
  dispatch scale_up r o d = carry_out_scale_up r o d
  dispatch scale_down r o d = carry_out_scale_down r o d
  dispatch no_action r o d = (r, none, [])

  unfoldable pub execute_scaling_action : Controller fl → Outside → ScalingDecision fl → Outcome
  unfolding carry_out_scale_up carry_out_scale_down
  execute_scaling_action r o d = dispatch d.action r o d

  -- The last `limit` events of a history.
  abbrev pub last_events : ℕ → List (ScalingEvent fl) → List (ScalingEvent fl)
  last_events limit h = if ltb limit (length h) then drop (length h - limit) h else h

  unfoldable pub record_scaling_event : Controller fl → ScalingEvent fl → Controller fl
  record_scaling_event r e = record r {
    scaling_history = last_events 100 (r.scaling_history ++ e ∷ []);
  }

  -- The event of a decision that was carried out, or that failed with an error.
  abbrev pub event_of : Outside → ScalingDecision fl → Option Error → ScalingEvent fl
  event_of o d (some e) = record {
    timestamp = o.recorded_at;
    action = d.action;
    reason = d.reason;
    node_count = pos 0;
    capacity_type = d.capacity_type;
    success = false;
  }
  event_of o d none = record {
    timestamp = o.recorded_at;
    action = d.action;
    reason = d.reason;
    node_count = d.desired_node_count;
    capacity_type = d.capacity_type;
    success = true;
  }

  abbrev pub is_no_action : ScalingAction → Bool
  is_no_action no_action = true
  is_no_action _ = false

  -- The event is recorded whether or not the action failed.
  abbrev pub finished : Outside → ScalingDecision fl → Outcome → Outcome
  finished o d (r, failure, calls) = (record_scaling_event r (event_of o d failure), failure, calls)

  abbrev pub acted : Controller fl → Outside → Result (ScalingDecision fl) → Outcome
  acted r o (err e) = (r, some e, [])
  acted r o (ok d) =
      if is_no_action d.action then (r, none, []) else finished o d (execute_scaling_action r o d)

  -- `Reconcile`; it always asks to be called again after `ReconcileInterval`.
  unfoldable pub reconcile : Controller fl → Sight fl → Outside → Outcome
  unfolding analyze_cluster_state execute_scaling_action record_scaling_event
  reconcile r s o = acted r o (analyze_cluster_state fl r s)
