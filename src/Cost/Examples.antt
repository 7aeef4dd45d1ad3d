-- ===== src/Cost/Examples.antt =====
-- Tests of pkg/cost/pricing.go and pkg/cost/tracker.go, and their theorems at a few pods and requests.
use gpuautoscaler.Prelude.{
  implies, if◌then◌else◌, ◌≡◌, refl, pos, true, false, none, some, [], ◌∷◌, lookup, entry, String,
}
use gpuautoscaler.Prelude.Fixed.{fixed}
use gpuautoscaler.Prelude.Results.{message, wrapped, Result, wrapped, ok, err}
use gpuautoscaler.Kube.{Pod, Node, running, gpu_resource}
use gpuautoscaler.Budget.Spend.{is_present, costs_gpu, any_mig_prefix}
use gpuautoscaler.Cost.Pricing.{
  GpuPricingRequest, PricingClient, new_pricing_client, get_gpu_pricing,
}
use gpuautoscaler.Cost.Cache.{made, IsRecent, get_gpu_pricing-IsRecent}
use gpuautoscaler.Cost.Labels.{get_gpu_count}
use gpuautoscaler.Cost.Tracker.{CostTracker, update_costs, get_pod_cost}
use gpuautoscaler.Cost.Active.{is_active}
use gpuautoscaler.Cost.Cleaning.{update_costs-active}
use gpuautoscaler.Cost.Uncosted.{update_costs-none}

abbrev an_a100 : String → GpuPricingRequest
an_a100 kind = record {
  gpu_type = "nvidia-tesla-a100";
  capacity_type = kind;
  region = "eu-west-1";
  zone = "";
}

abbrev aws : PricingClient fixed
aws = new_pricing_client fixed "aws" "us-east-1"

spot_in_europe :
    (get_gpu_pricing fixed aws (an_a100 "spot") (pos 0)).1.price_per_gpu_hour
    ≡ fixed.mul (fixed.lit 200 2) (fixed.lit 35 2)
unfolding get_gpu_pricing
spot_in_europe = refl

on_demand_in_europe :
    (get_gpu_pricing fixed aws (an_a100 "on-demand") (pos 0)).1.price_per_gpu_hour ≡ fixed.lit 300 2
unfolding get_gpu_pricing
on_demand_in_europe = refl

get_gpu_pricing-IsRecent_example :
    IsRecent fixed aws
      (an_a100 "spot")
      (pos 7)
      (get_gpu_pricing fixed aws (an_a100 "spot") (pos 7)).1
get_gpu_pricing-IsRecent_example =
    get_gpu_pricing-IsRecent fixed (made "aws" "us-east-1") (an_a100 "spot") (pos 7)
      (refl, refl, refl)

abbrev pod_asking : String → String → Pod
pod_asking name device = record {
  name = name;
  namespace = "ml";
  node_name = "a";
  phase = running;
  labels = none;
  annotations = none;
  containers = record { requests = some (entry device (pos 2) ∷ []); limits = none } ∷ [];
  priority = none;
  created = pos 0;
  start_time = some (pos 1);
  node_selector = none;
  tolerations = [];
}

abbrev node_of : String → Result Node
node_of name = ok (record {
  name = name;
  labels = some (entry "nvidia.com/gpu.product" "nvidia-l4" ∷ []);
  annotations = none;
  capacity = none;
  unschedulable = false;
})

abbrev whole : Pod
whole = pod_asking "p" gpu_resource

abbrev sliced : Pod
sliced = pod_asking "q" "nvidia.com/mig-2g.10gb"

abbrev new_tracker : CostTracker fixed
new_tracker = record {
  pod_cost_cache = [];
  pricing_client = aws;
  hourly_cost_gauge = fixed.lit 0 0;
  total_cost_gauge = fixed.lit 0 0;
  inserted = [];
}

-- The pod that asks for two slices uses GPUs, and it has no cost.
sliced_update :
    (is_active "ml/q" (whole ∷ sliced ∷ []) ≡ true)
    × (get_pod_cost fixed
          (update_costs fixed true node_of (pos 1) (ok (whole ∷ sliced ∷ [])) new_tracker).0
          "ml"
          "q"
        ≡ none)
unfolding is_active costs_gpu any_mig_prefix lookup get_pod_cost update_costs
sliced_update = (refl, refl)

-- An L4, which the tables of AWS do not have, is charged as a V100.
whole_update :
    (update_costs fixed true node_of
      (pos 1)
      (ok (whole ∷ sliced ∷ []))
      new_tracker).0.hourly_cost_gauge
    ≡ fixed.lit 612 2
unfolding update_costs any_mig_prefix
whole_update = refl

abbrev updated_once : CostTracker fixed
updated_once = (update_costs fixed true node_of (pos 1) (ok (whole ∷ sliced ∷ [])) new_tracker).0

update_costs-active_example :
    (lookup updated_once.pod_cost_cache "ml/p" ≡ (
      if is_active "ml/p" (whole ∷ sliced ∷ [])
      then lookup updated_once.pod_cost_cache "ml/p"
      else none))
    × (implies (is_active "ml/p" (whole ∷ sliced ∷ [])) (
          implies
            (is_present (lookup new_tracker.pod_cost_cache "ml/p"))
            (is_present (lookup updated_once.pod_cost_cache "ml/p")))
        ≡ true)
    × (update_costs fixed true node_of (pos 1) (err (message "down")) new_tracker
        ≡ (new_tracker, some (wrapped "failed to list pods" (message "down"))))
update_costs-active_example =
    update_costs-active fixed true node_of (pos 1) new_tracker (whole ∷ sliced ∷ []) "ml/p"
      (message "down")

update_costs-none_example :
    lookup
      (update_costs fixed true node_of (pos 1) (ok (sliced ∷ [])) new_tracker).0.pod_cost_cache
      "ml/q"
    ≡ none
unfolding get_gpu_count lookup
update_costs-none_example =
    update_costs-none fixed true node_of (pos 1) (sliced ∷ []) new_tracker "ml/q" refl
      ((λ same. refl), _)
