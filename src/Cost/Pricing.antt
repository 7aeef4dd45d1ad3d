-- ===== src/Cost/Pricing.antt =====
-- `GetGPUPricing` with its cache, and the prices of the three clouds. The clock is read once in a call.
use gpuautoscaler.Prelude.{
  ℕ, ◌*◌, pos, ◌+ℤ◌, ltb_ℤ, Bool, true, false, Option, none, some, String, str_eq, [], Entries,
  lookup, insert, delete, if◌then◌else◌,
}
use gpuautoscaler.Prelude.Float.{Float64}
use gpuautoscaler.Prelude.Keys.{colon}
use gpuautoscaler.Prelude.Results.{Result, ok, err}
use gpuautoscaler.Prelude.Time.{Time, Duration, minute}
use gpuautoscaler.Cost.Tables.{
  found_or, map_gpu_type_to_aws_instance, map_gpu_type_to_gcp_machine, map_gpu_type_to_azure_vm,
  get_gpu_count_for_instance_type, get_gpu_count_for_machine_type, get_gpu_count_for_vm_size,
  get_aws_on_demand_prices, get_aws_spot_prices, get_gcp_prices, get_azure_prices, estimates,
}

pub record GpuPricingRequest : Type 0 where
  pub gpu_type : String
  pub capacity_type : String
  pub region : String
  pub zone : String

abbrev pub cache_key : GpuPricingRequest → String → String
cache_key req region = colon req.gpu_type (colon req.capacity_type (colon region req.zone))

module _ (fl : Float64) where
  pub record GpuPricing : Type 0 where
    pub gpu_type : String
    pub capacity_type : String
    pub price_per_gpu_hour : fl.F
    pub price_per_gpu_month : fl.F
    pub region : String
    pub zone : String
    pub currency : String
    pub last_updated : Time

  pub record CachedPrice : Type 0 where
    pub pricing : GpuPricing
    pub expires_at : Time

  pub record PricingClient : Type 0 where
    pub provider : String
    pub region : String
    pub cache_enabled : Bool
    pub cache_duration : Duration
    pub price_cache : Entries CachedPrice

  abbrev pub new_pricing_client : String → String → PricingClient
  new_pricing_client provider region = record {
    provider = provider;
    region = region;
    cache_enabled = true;
    cache_duration = pos (60 * minute);
    price_cache = [];
  }

  -- A price for an hour, as the functions below return it.
  abbrev pub priced : String → String → fl.F → String → String → Time → GpuPricing
  priced gpu_type capacity_type hourly region zone now = record {
    gpu_type = gpu_type;
    capacity_type = capacity_type;
    price_per_gpu_hour = hourly;
    price_per_gpu_month = fl.mul hourly (fl.of_int (pos 730));
    region = region;
    zone = zone;
    currency = "USD";
    last_updated = now;
  }

  abbrev is_spot_request : String → Bool
  is_spot_request capacity_type = str_eq capacity_type "spot"

  abbrev pub estimated_hourly : String → String → fl.F
  estimated_hourly gpu_type capacity_type =
      let price = found_or (lookup (estimates fl) gpu_type) (fl.lit 200 2) in
      if is_spot_request capacity_type then fl.mul price (fl.lit 35 2) else price

  unfoldable pub get_estimated_pricing : String → String → String → Time → Result GpuPricing
  unfolding estimates lookup
  get_estimated_pricing gpu_type capacity_type region now =
      ok (priced gpu_type capacity_type (estimated_hourly gpu_type capacity_type) region "" now)

  -- The price of a machine, shared among its GPUs.
  abbrev pub per_gpu : fl.F → ℕ → fl.F
  per_gpu price count = fl.div price (fl.of_int (pos count))

  -- `if price, ok := table[key]; ok { … }`, and the estimate otherwise.
  abbrev pub listed : Option fl.F → (fl.F → GpuPricing) → Result GpuPricing → Result GpuPricing
  listed none found estimate = estimate
  listed (some price) found estimate = ok (found price)

  unfoldable pub fetch_aws_spot_pricing : String → String → Time → Result GpuPricing
  unfolding lookup get_aws_spot_prices get_gpu_count_for_instance_type get_estimated_pricing
  fetch_aws_spot_pricing instance region now =
      listed (lookup (get_aws_spot_prices fl) (colon region instance))
        (λ price.
          priced instance "spot" (per_gpu price (get_gpu_count_for_instance_type instance)) region
            "" now)
        (get_estimated_pricing instance "spot" region now)

  unfoldable pub fetch_aws_pricing : GpuPricingRequest → String → Time → Result GpuPricing
  unfolding fetch_aws_spot_pricing map_gpu_type_to_aws_instance lookup get_aws_on_demand_prices
      get_gpu_count_for_instance_type get_estimated_pricing
  fetch_aws_pricing req region now =
      let instance = map_gpu_type_to_aws_instance req.gpu_type in
      if is_spot_request req.capacity_type
      then fetch_aws_spot_pricing instance region now
      else listed (lookup (get_aws_on_demand_prices fl) (colon region instance))
          (λ price.
            priced req.gpu_type req.capacity_type
              (per_gpu price (get_gpu_count_for_instance_type instance)) region req.zone now)
          (get_estimated_pricing req.gpu_type req.capacity_type region now)

  unfoldable pub fetch_gcp_pricing : GpuPricingRequest → String → Time → Result GpuPricing
  unfolding map_gpu_type_to_gcp_machine lookup get_gcp_prices get_gpu_count_for_machine_type
      get_estimated_pricing
  fetch_gcp_pricing req region now =
      let machine = map_gpu_type_to_gcp_machine req.gpu_type in
      let kind = if is_spot_request req.capacity_type then "preemptible" else "on-demand" in
      listed (lookup (get_gcp_prices fl) (colon region (colon machine kind)))
        (λ price.
          priced req.gpu_type req.capacity_type
            (per_gpu price (get_gpu_count_for_machine_type machine)) region "" now)
        (get_estimated_pricing req.gpu_type req.capacity_type region now)

  unfoldable pub fetch_azure_pricing : GpuPricingRequest → String → Time → Result GpuPricing
  unfolding map_gpu_type_to_azure_vm lookup get_azure_prices get_gpu_count_for_vm_size
      get_estimated_pricing
  fetch_azure_pricing req region now =
      let size = map_gpu_type_to_azure_vm req.gpu_type in
      let kind = if is_spot_request req.capacity_type then "spot" else "regular" in
      listed (lookup (get_azure_prices fl) (colon region (colon size kind)))
        (λ price.
          priced req.gpu_type req.capacity_type (per_gpu price (get_gpu_count_for_vm_size size))
            region "" now)
        (get_estimated_pricing req.gpu_type req.capacity_type region now)

  -- The switch over the provider.
  unfoldable pub fetch_pricing : String → GpuPricingRequest → String → Time → Result GpuPricing
  unfolding fetch_aws_pricing fetch_gcp_pricing fetch_azure_pricing get_estimated_pricing
  fetch_pricing provider req region now =
      if str_eq provider "aws"
      then fetch_aws_pricing req region now
      else if str_eq provider "gcp"
      then fetch_gcp_pricing req region now
      else if str_eq provider "azure"
      then fetch_azure_pricing req region now
      else get_estimated_pricing req.gpu_type req.capacity_type region now

  -- On an error, the estimate.
  abbrev or_estimated : Result GpuPricing → GpuPricing → GpuPricing
  or_estimated (ok pricing) estimate = pricing
  or_estimated (err e) estimate = estimate

  -- A price that is not taken from the cache.
  unfoldable pub fresh_pricing : String → GpuPricingRequest → String → Time → GpuPricing
  unfolding fetch_pricing estimates lookup
  fresh_pricing provider req region now = or_estimated (fetch_pricing provider req region now) (
      priced req.gpu_type req.capacity_type (estimated_hourly req.gpu_type req.capacity_type) region
        "" now)

  abbrev pub region_of : PricingClient → GpuPricingRequest → String
  region_of pc req = if str_eq req.region "" then pc.region else req.region

  -- The price that the cache holds and that has not expired.
  abbrev still_valid : Option CachedPrice → Time → Option GpuPricing
  still_valid none now = none
  still_valid (some cached) now = if ltb_ℤ now cached.expires_at then some cached.pricing else none

  unfoldable pub cached_price : PricingClient → String → Time → Option GpuPricing
  unfolding lookup
  cached_price pc key now =
      if pc.cache_enabled then still_valid (lookup pc.price_cache key) now else none

  -- The client after a fresh price: what has expired was deleted, and the price is stored.
  abbrev pub stored : Bool → PricingClient → String → GpuPricing → Time → PricingClient
  stored true pc key pricing now = record pc {
    price_cache =
        insert (delete pc.price_cache key) key
          (record { pricing = pricing; expires_at = now +ℤ pc.cache_duration });
  }
  stored false pc key pricing now = pc

  abbrev pub answered :
      Option GpuPricing → PricingClient → GpuPricingRequest → Time → PricingClient × GpuPricing
  answered (some pricing) pc req now = (pc, pricing)
  answered none pc req now =
      let pricing = fresh_pricing pc.provider req (region_of pc req) now in
      (stored pc.cache_enabled pc (cache_key req (region_of pc req)) pricing now, pricing)

  -- `GetGPUPricing`, which never returns an error.
  unfoldable pub get_gpu_pricing :
      PricingClient → GpuPricingRequest → Time → PricingClient × GpuPricing
  unfolding cached_price fresh_pricing lookup insert delete ◌+ℤ◌
  get_gpu_pricing pc req now =
      answered (cached_price pc (cache_key req (region_of pc req)) now) pc req now

  abbrev pub clear_cache : PricingClient → PricingClient
  clear_cache pc = record pc { price_cache = [] }
