-- ===== src/Autoscaler/Growth.antt =====
-- What a scale-up asks the cloud provider for.
use gpuautoscaler.Prelude.{
  ℕ, ◌≡◌, ◌≢◌, refl, ℤ, pos, negsuc, ◌<ℤ◌, ltb_ℤ, lt→ltb, InRange, sub64, Option, none, some, List,
  [], ◌∷◌, arith, true,
}
use gpuautoscaler.Prelude.Float.{Float64}
use gpuautoscaler.Prelude.Results.{Error, message}
use gpuautoscaler.Prelude.Time.{Time}
use gpuautoscaler.Kube.{Pod, Node}
use gpuautoscaler.Autoscaler.Model.{
  NodePoolConfig, Controller, ScalingDecision, ScalingPrediction, scale_up,
}
use gpuautoscaler.Autoscaler.Decide.{get_node_pool_by_name, decide, apply_predictive_scaling}
use gpuautoscaler.Autoscaler.Execute.{
  Outside, provider_scale_up, carry_out_scale_up, execute_scaling_action, provider_answered,
}

-- x - (x - 1) is 1, also where x - 1 wraps.
sub64-one : (x : ℤ) → InRange x → sub64 x (sub64 x (pos 1)) ≡ pos 1
unfolding sub64
sub64-one (pos n) h = ground arith
sub64-one (negsuc n) h = ground arith

module _ (fl : Float64) where
  -- Whatever node count a decision desires, `scaleUp` asks the provider for exactly one node in the
  -- decision's pool.
  pub carry_out_scale_up_one :
      (r : Controller fl) (o : Outside) (d : ScalingDecision fl) (pool : NodePoolConfig)
      → InRange d.desired_node_count
      → get_node_pool_by_name r.config.node_pools d.node_pool ≡ some pool
      → (carry_out_scale_up fl r o d).2 ≡ provider_scale_up pool.name (pos 1) ∷ []
  unfolding carry_out_scale_up
  carry_out_scale_up_one r o d pool range found =
      rw (found, sub64-one d.desired_node_count range) (go o.scale_up_answer)
    where
      go :
          (answer : Option Error)
          → (provider_answered fl r o pool (pos 1) answer).2
            ≡ provider_scale_up pool.name (pos 1) ∷ []
      go none = refl
      go (some e) = refl

  decide_pool :
      (r : Controller fl) (now : Time) (nodes : List Node) (pods : List Pod) (u : fl.F) (under : ℕ)
      → (decide fl r now nodes pods u under).action ≢ scale_up
      → (decide fl r now nodes pods u under).node_pool ≡ ""
  unfolding decide
  decide_pool r now nodes pods u under h = ground arith

  -- When the decision is not a scale-up and the prediction asks for more nodes than it desires, the
  -- decision becomes a scale-up with no pool, and if no pool is called "" it fails: no node is asked for
  -- and the controller's state stays.
  pub predictive_scale_up_fails :
      (r : Controller fl) (o : Outside) (p : ScalingPrediction fl) (now : Time) (nodes : List Node)
      (pods : List Pod) (u : fl.F) (under : ℕ)
      → let d = decide fl r now nodes pods u under in
        d.action ≢ scale_up
        → p.should_pre_warm ≡ true
        → d.desired_node_count <ℤ p.recommended_nodes
        → get_node_pool_by_name r.config.node_pools "" ≡ none
        → execute_scaling_action fl r o (apply_predictive_scaling fl p d)
          ≡ (r, some (message "node pool not found"), [])
  unfolding apply_predictive_scaling execute_scaling_action
  predictive_scale_up_fails r o p now nodes pods u under other warm more nameless =
      let d = decide fl r now nodes pods u under in
      let grows : ltb_ℤ d.desired_node_count p.recommended_nodes ≡ true = lt→ltb _ _ more in
      rw (warm, grows, decide_pool r now nodes pods u under other, nameless) refl
