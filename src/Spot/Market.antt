-- ===== src/Spot/Market.antt =====
-- Metrics, recommendations, bids and placement. `CreateSpotNodeEvent` only writes an event.
use gpuautoscaler.Prelude.{
  ℕ, pos, Bool, true, false, String, List, [], keep, length, map_get, if◌then◌else◌, ◌≡◌, refl,
}
use gpuautoscaler.Prelude.Float.{Float64}
use gpuautoscaler.Prelude.Fixed.{fixed}
use gpuautoscaler.Prelude.Results.{Result, ok, err, wrap_error, ◌>>=◌}
use gpuautoscaler.Prelude.Time.{Time, zero_time}
use gpuautoscaler.Kube.{Node}
use gpuautoscaler.Autoscaler.Observe.{is_some}
use gpuautoscaler.Spot.Model.{SpotOrchestrator, get_spot_nodes, interruption_warning}

module _ (fl : Float64) where
  pub record SpotInstanceMetrics : Type 0 where
    pub total_spot_nodes : ℕ
    pub nodes_with_warning : ℕ
    pub active_terminations : ℕ
    pub spot_interruption_rate : fl.F
    pub last_interruption : Time

  abbrev has_warning : Node → Bool
  has_warning node = is_some (map_get interruption_warning node.annotations)

  unfoldable pub get_spot_instance_metrics :
      Result (List Node) → SpotOrchestrator → Result SpotInstanceMetrics
  unfolding get_spot_nodes
  get_spot_instance_metrics listed s = do
    nodes ← get_spot_nodes listed
    ok (record {
      total_spot_nodes = length nodes;
      nodes_with_warning = length (keep has_warning nodes);
      active_terminations = length s.termination_warnings;
      spot_interruption_rate = fl.of_int (pos 0);
      last_interruption = zero_time;
    })

  pub record SpotInstanceRecommendation : Type 0 where
    pub recommended_spot_percentage : fl.F
    pub diversify_instance_types : Bool
    pub suggested_instance_types : List String
    pub estimated_savings : fl.F

  abbrev or_empty : Result (List String) → List String
  or_empty (err e) = []
  or_empty (ok types) = types

  -- The percentage for a rate of interruptions.
  abbrev percentage_for : fl.F → fl.F
  percentage_for rate =
      if fl.lt (fl.lit 1 1) rate
      then fl.lit 4 1
      else if fl.lt rate (fl.lit 2 2)
      then fl.lit 75 2
      else fl.lit 6 1

  unfoldable pub get_spot_instance_recommendation :
      Result (List Node)
      → Result (List String)
      → SpotOrchestrator
      → Result SpotInstanceRecommendation
  unfolding get_spot_instance_metrics
  get_spot_instance_recommendation listed types s = do
    m ← get_spot_instance_metrics listed s
    ok (record {
      recommended_spot_percentage = percentage_for m.spot_interruption_rate;
      diversify_instance_types = true;
      suggested_instance_types = or_empty types;
      estimated_savings = fl.mul (percentage_for m.spot_interruption_rate) (fl.lit 70 2);
    })

  pub record SpotBidStrategy : Type 0 where
    pub instance_type : String
    pub current_price : fl.F
    pub on_demand_price : fl.F
    pub bid_price : fl.F
    pub max_price : fl.F

  unfoldable pub calculate_price_volatility : String → fl.F
  calculate_price_volatility instance_type = fl.lit 2 1

  -- With the provider's answers on the two prices.
  unfoldable pub handle_spot_instance_bidding :
      Result fl.F → Result fl.F → String → Result SpotBidStrategy
  unfolding calculate_price_volatility
  handle_spot_instance_bidding spot_price on_demand_price instance_type = do
    current ← wrap_error "failed to get spot price" spot_price
    on_demand ← wrap_error "failed to get on-demand price" on_demand_price
    ok (record {
      instance_type = instance_type;
      current_price = current;
      on_demand_price = on_demand;
      bid_price =
          if fl.lt (fl.lit 3 1) (calculate_price_volatility instance_type)
          then fl.mul on_demand (fl.lit 9 1)
          else fl.mul on_demand (fl.lit 8 1);
      max_price = on_demand;
    })

  -- The constants of the recommendation and of the bid, compared.
  pub record IsCompared : Type 0 where
    pub none_below_high : fl.lt (fl.lit 1 1) (fl.of_int (pos 0)) ≡ false
    pub none_below_low : fl.lt (fl.of_int (pos 0)) (fl.lit 2 2) ≡ true

  -- When the nodes can be listed the recommendation is a share of 0.75, whatever nodes there are, how
  -- many of them have warnings, and how many terminations are under way.
  pub get_spot_instance_recommendation-constant :
      IsCompared
      → (nodes : List Node) (types : Result (List String)) (s : SpotOrchestrator)
      → get_spot_instance_recommendation (ok nodes) types s
        ≡ ok (record {
          recommended_spot_percentage = fl.lit 75 2;
          diversify_instance_types = true;
          suggested_instance_types = or_empty types;
          estimated_savings = fl.mul (fl.lit 75 2) (fl.lit 70 2);
        })
  unfolding get_spot_instance_recommendation
  get_spot_instance_recommendation-constant c nodes types s =
      rw (c.none_below_high, c.none_below_low) refl

pub record SpotPlacementStrategy : Type 0 where
  pub preferred_zones : List String
  pub instance_types : List String
  pub diversification_min : ℕ

unfoldable pub get_optimal_spot_placement :
    Result (List String) → Result (List String) → Result SpotPlacementStrategy
get_optimal_spot_placement zones types = do
  z ← zones
  t ← types
  ok (record { preferred_zones = z; instance_types = t; diversification_min = 3 })

pub fixed-IsCompared : IsCompared fixed
fixed-IsCompared = record { none_below_high = refl; none_below_low = refl }
