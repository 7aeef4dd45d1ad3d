-- ===== src/Cost/Estimates.antt =====
-- The estimate of a spot price on AWS.
use gpuautoscaler.Prelude.{◌≡◌, refl, none, String, lookup}
use gpuautoscaler.Prelude.Float.{Float64}
use gpuautoscaler.Prelude.Keys.{colon}
use gpuautoscaler.Prelude.Results.{ok}
use gpuautoscaler.Prelude.Time.{Time}
use gpuautoscaler.Cost.Tables.{
  aws_instances, found-All, map_gpu_type_to_aws_instance, get_aws_spot_prices, estimates,
}
use gpuautoscaler.Cost.Pricing.{
  GpuPricingRequest, priced, get_estimated_pricing, fetch_aws_spot_pricing, fetch_aws_pricing,
}

module _ (fl : Float64) where
  -- No name of an instance is a key of the table of estimates, whose keys are types of GPUs.
  no_estimate :
      (gpu_type : String) → lookup (estimates fl) (map_gpu_type_to_aws_instance gpu_type) ≡ none
  unfolding map_gpu_type_to_aws_instance estimates lookup
  no_estimate gpu_type =
      found-All (λ i. lookup (estimates fl) i ≡ none) aws_instances gpu_type "p3.2xlarge"
        (refl, (refl, (refl, (refl, (refl, _))))) refl

  -- On AWS a spot price that the table does not list is estimated at 35% of 2.00 dollars for every type
  -- of GPU, also for those that the table of estimates has, and the type named in the answer is an
  -- instance's.
  pub fetch_aws_pricing-spot_estimate :
      (req : GpuPricingRequest) (region : String) (now : Time)
      → req.capacity_type ≡ "spot"
      → lookup (get_aws_spot_prices fl) (colon region (map_gpu_type_to_aws_instance req.gpu_type))
        ≡ none
      → fetch_aws_pricing fl req region now
        ≡ ok (
            priced fl
              (map_gpu_type_to_aws_instance req.gpu_type)
              "spot"
              (fl.mul (fl.lit 200 2) (fl.lit 35 2))
              region
              ""
              now)
  unfolding fetch_aws_pricing fetch_aws_spot_pricing get_estimated_pricing
  fetch_aws_pricing-spot_estimate req region now spot missing =
      rw (spot, missing, no_estimate req.gpu_type) refl
