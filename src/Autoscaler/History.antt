-- ===== src/Autoscaler/History.antt =====
-- The state that `Reconcile` leaves behind.
use gpuautoscaler.Prelude.{
  ℤ, ltb, ℕ, zero, suc, ◌-◌, ◌≤◌, ◌≡◌, refl, Option, none, some, List, [], ◌∷◌, ◌++◌, length, drop,
  arith, Bool-cases, inl, inr,
}
use gpuautoscaler.Prelude.Float.{Float64}
use gpuautoscaler.Prelude.Results.{Error, Result, ok, err}
use gpuautoscaler.Kube.{Node}
use gpuautoscaler.Autoscaler.Model.{
  NodePoolConfig, ScalingAction, Controller, ScalingDecision, ScalingEvent, scale_up, scale_down,
  no_action,
}
use gpuautoscaler.Autoscaler.Observe.{get_gpu_nodes}
use gpuautoscaler.Autoscaler.Decide.{Sight, analyze_cluster_state, get_node_pool_by_name}
use gpuautoscaler.Autoscaler.Execute.{
  Outside, Outcome, provider_answered, in_pool, carry_out_scale_up, drained, carry_out_scale_down,
  dispatch, execute_scaling_action, last_events, record_scaling_event, event_of, is_no_action,
  finished, acted, reconcile,
}

module _ {ℓ} {A : Type ℓ} where
  length-drop : (n : ℕ) (xs : List A) → length (drop n xs) ≡ length xs - n
  length-drop zero xs = omega arith
  length-drop (suc n) [] = omega arith
  length-drop (suc n) (x ∷ xs) = omega (arith, length-drop n xs)

module _ (fl : Float64) where
  -- What carrying out an action leaves alone: the configuration and the history, and if it fails the
  -- times of the last actions too.
  pub record IsContained (r : Controller fl) (o : Outcome fl) : Type 0 where
    pub same_config : o.0.config ≡ r.config
    pub same_history : o.0.scaling_history ≡ r.scaling_history
    pub on_failure :
        (e : Error)
        → o.1 ≡ some e
        → (o.0.last_scale_up_time ≡ r.last_scale_up_time)
          × (o.0.last_scale_down_time ≡ r.last_scale_down_time)

  unchanged :
      (r : Controller fl) (failure : Option Error) (calls : _) → IsContained r (r, failure, calls)
  unchanged r failure calls = record {
    same_config = refl;
    same_history = refl;
    on_failure = λ e h. (refl, refl);
  }

  provider_answered-IsContained :
      (r : Controller fl) (o : Outside) (pool : NodePoolConfig) (count : ℤ) (answer : Option Error)
      → IsContained r (provider_answered fl r o pool count answer)
  provider_answered-IsContained r o pool count (some e) = unchanged r _ _
  provider_answered-IsContained r o pool count none = record {
    same_config = refl;
    same_history = refl;
    on_failure = λ e h. cc;
  }

  in_pool-IsContained :
      (r : Controller fl) (o : Outside) (d : ScalingDecision fl) (pool : Option NodePoolConfig)
      → IsContained r (in_pool fl r o d pool)
  in_pool-IsContained r o d none = unchanged r _ _
  in_pool-IsContained r o d (some pool) = provider_answered-IsContained r o pool _ o.scale_up_answer

  drained-IsContained :
      (r : Controller fl) (o : Outside) (d : ScalingDecision fl) (nodes : Result (List Node))
      → IsContained r (drained fl r o d nodes)
  drained-IsContained r o d (err e) = unchanged r _ _
  drained-IsContained r o d (ok nodes) = record {
    same_config = refl;
    same_history = refl;
    on_failure = λ e h. cc;
  }

  dispatch-IsContained :
      (action : ScalingAction) (r : Controller fl) (o : Outside) (d : ScalingDecision fl)
      → IsContained r (dispatch fl action r o d)
  unfolding carry_out_scale_up carry_out_scale_down
  dispatch-IsContained scale_up r o d =
      in_pool-IsContained r o d (get_node_pool_by_name r.config.node_pools d.node_pool)
  dispatch-IsContained scale_down r o d = drained-IsContained r o d (get_gpu_nodes o.nodes_later)
  dispatch-IsContained no_action r o d = unchanged r _ _

  last_events-le : (h : List (ScalingEvent fl)) → length (last_events fl 100 h) ≤ 100
  last_events-le h = elim (Bool-cases (ltb 100 (length h))) [
    | inl long ↦ rw long (ground (arith, length-drop (length h - 100) h))
    | inr short ↦ rw short (ground arith)
  ]

  -- What a reconciliation leaves behind.
  pub record IsReconciled (r : Controller fl) (o : Outcome fl) : Type 0 where
    pub same_config : o.0.config ≡ r.config
    pub short_history : length o.0.scaling_history ≤ 100
    pub on_failure :
        (e : Error)
        → o.1 ≡ some e
        → (o.0.last_scale_up_time ≡ r.last_scale_up_time)
          × (o.0.last_scale_down_time ≡ r.last_scale_down_time)

  finished-IsReconciled :
      (r : Controller fl) (o : Outside) (d : ScalingDecision fl) (x : Outcome fl)
      → IsContained r x
      → IsReconciled r (finished fl o d x)
  unfolding record_scaling_event
  finished-IsReconciled r o d (s, failure, calls) h = record {
    same_config = h.same_config;
    short_history = last_events-le (s.scaling_history ++ event_of fl o d failure ∷ []);
    on_failure = h.on_failure;
  }

  acted-IsReconciled :
      (r : Controller fl) (o : Outside) (decision : Result (ScalingDecision fl))
      → length r.scaling_history ≤ 100
      → IsReconciled r (acted fl r o decision)
  unfolding execute_scaling_action
  acted-IsReconciled r o (err e) short = record {
    same_config = refl;
    short_history = short;
    on_failure = λ e h. (refl, refl);
  }
  acted-IsReconciled r o (ok d) short = elim (Bool-cases (is_no_action fl d.action)) [
    | inl idle ↦
        rw idle
          (record { same_config = refl; short_history = short; on_failure = λ e h. (refl, refl) })
    | inr acts ↦ rw acts (finished-IsReconciled r o d _ (dispatch-IsContained d.action r o d))
  ]

  -- A reconciliation that starts with at most 100 events in the history ends with at most 100, leaves the
  -- configuration alone, and if it returns an error the times of the last scale-up and of the last
  -- scale-down are what they were, so that no cooldown starts.
  pub reconcile-IsReconciled :
      (r : Controller fl) (s : Sight fl) (o : Outside)
      → length r.scaling_history ≤ 100
      → IsReconciled r (reconcile fl r s o)
  unfolding reconcile
  reconcile-IsReconciled r s o short = acted-IsReconciled r o (analyze_cluster_state fl r s) short
