-- ===== src/Autoscaler/Targets.antt =====
-- The node counts that `analyzeClusterState` aims at.
use gpuautoscaler.Prelude.{
  ℕ, ◌+◌, ◌-◌, ◌/◌, ◌<◌, ◌≤◌, ◌^◌, ◌≡◌, refl, pos, ◌≤ℤ◌, ◌<ℤ◌, ◌+ℤ◌, ◌-ℤ◌, ltb_ℤ, leb, add64, sub64,
  add64-eq, sub64-eq, one_sided, int_laws, +ℤ_parts, -ℤ_parts, List, length, arith, if◌then◌else◌,
  true, Bool-cases, inl, inr, ◌∙◌,
}
use gpuautoscaler.Prelude.Float.{Float64, IsIeee}
use gpuautoscaler.Prelude.Time.{Time}
use gpuautoscaler.Kube.{Pod, Node}
use gpuautoscaler.Autoscaler.Model.{
  AutoscalerConfig, Controller, ScalingDecision, scale_up, scale_down, no_action,
}
use gpuautoscaler.Autoscaler.Decide.{
  should_scale_up, should_scale_down, calculate_scale_up_node_count,
  calculate_scale_down_node_count, decide,
}

add64-pos : (a b : ℕ) → a + b < 2 ^ 63 → add64 (pos a) (pos b) ≡ pos (a + b)
add64-pos a b h =
    add64-eq (pos a) (pos b) (omega (arith, one_sided (pos a +ℤ pos b), +ℤ_parts (pos a) (pos b)))
    ∙ omega int_laws

abbrev smaller : ℕ → ℕ → ℕ
smaller a b = if leb a b then a else b

smaller-le : (a b n : ℕ) → a ≤ n → b ≤ n → smaller a b ≤ n
smaller-le a b n h k = ground arith

sub64-pos : (a b : ℕ) → b ≤ a → a < 2 ^ 63 → sub64 (pos a) (pos b) ≡ pos (a - b)
sub64-pos a b h k =
    sub64-eq (pos a) (pos b) (omega (arith, one_sided (pos a -ℤ pos b), -ℤ_parts (pos a) (pos b)))
    ∙ omega int_laws

module _ (fl : Float64) where
  -- How far a decision can go from the present number of nodes.
  pub record IsBounded (config : AutoscalerConfig fl) (nodes pods : ℕ) (d : ScalingDecision fl)
      : Type 0 where
    pub above_min : config.min_nodes ≤ℤ d.desired_node_count
    pub below_max : d.desired_node_count ≤ℤ config.max_nodes
    pub grows :
        d.action ≡ scale_up
        → (pos nodes ≤ℤ d.desired_node_count)
          × (d.desired_node_count ≤ℤ pos (nodes + (pods + 3) / 4))
    pub shrinks :
        d.action ≡ scale_down
        → (d.desired_node_count ≤ℤ pos nodes) × (pos (nodes - nodes / 5) ≤ℤ d.desired_node_count)
    pub stays : d.action ≡ no_action → d.desired_node_count ≡ pos nodes

module _ (fl : Float64) (laws : IsIeee fl) where
  scale_up_count-eq :
      (config : AutoscalerConfig fl) (nodes : List Node) (pods : List Pod)
      → length nodes ≤ 2 ^ 52
      → length pods ≤ 2 ^ 52
      → let target = pos (length nodes + (length pods + 3) / 4) in
        calculate_scale_up_node_count fl config nodes pods
        ≡ (if ltb_ℤ config.max_nodes target then config.max_nodes else target)
  unfolding calculate_scale_up_node_count
  scale_up_count-eq config nodes pods few_nodes few_pods =
      let needed = laws.ceil-div (length pods) 2 (omega arith) (omega arith) in
      rw (needed, add64-pos (length nodes) ((length pods + 3) / 4) (omega arith)) refl

  scale_down_count-eq :
      (config : AutoscalerConfig fl) (nodes : List Node) (under : ℕ)
      → length nodes ≤ 2 ^ 52
      → under ≤ length nodes
      → let target = pos (length nodes - smaller under (length nodes / 5)) in
        calculate_scale_down_node_count fl config nodes under
        ≡ (if ltb_ℤ target config.min_nodes then config.min_nodes else target)
  unfolding calculate_scale_down_node_count
  scale_down_count-eq config nodes under few low =
      let n = length nodes in
      let least = smaller under (n / 5) in
      let removed =
        laws.trunc-fmin under (n / 5) (fl.mul (fl.of_int (pos n)) (fl.lit 2 1)) (omega arith)
          (omega arith) (laws.le-fifth n (omega arith)) (laws.trunc-fifth n (omega arith)) in
      let left = sub64-pos n least (smaller-le under (n / 5) n low (omega arith)) (omega arith) in
      rw (removed, left) refl

  -- The two tests refuse to act beyond the limits.
  should_scale_up-lt_max :
      (r : Controller fl) (now : Time) (nodes : List Node) (pods : List Pod) (u : fl.F)
      → should_scale_up fl r now nodes pods u ≡ true
      → pos (length nodes) <ℤ r.config.max_nodes
  unfolding should_scale_up
  should_scale_up-lt_max r now nodes pods u h = ground arith

  should_scale_down-gt_min :
      (r : Controller fl) (now : Time) (nodes : List Node) (u : fl.F) (under : ℕ)
      → should_scale_down fl r now nodes u under ≡ true
      → r.config.min_nodes <ℤ pos (length nodes)
  unfolding should_scale_down
  should_scale_down-gt_min r now nodes u under h = ground arith

  module _ (r : Controller fl) (now : Time) (nodes : List Node) (pods : List Pod) (u : fl.F)
      (under : ℕ) (few_nodes : length nodes ≤ 2 ^ 52) (few_pods : length pods ≤ 2 ^ 52)
      (low : under ≤ length nodes) (min : r.config.min_nodes ≤ℤ pos (length nodes))
      (max : pos (length nodes) ≤ℤ r.config.max_nodes) where
    pub decide-IsBounded :
        IsBounded fl r.config (length nodes) (length pods) (decide fl r now nodes pods u under)
    unfolding decide
    decide-IsBounded = elim (Bool-cases (should_scale_up fl r now nodes pods u)) [
      | inl up ↦
          let room = should_scale_up-lt_max r now nodes pods u up in
          rw (up, scale_up_count-eq r.config nodes pods few_nodes few_pods) (ground arith)
      | inr not_up ↦ elim (Bool-cases (should_scale_down fl r now nodes u under)) [
        | inl down ↦
            let room = should_scale_down-gt_min r now nodes u under down in
            rw (not_up, down, scale_down_count-eq r.config nodes under few_nodes low) (ground arith)
        | inr still ↦ rw (not_up, still) (ground arith)
      ]
    ]
