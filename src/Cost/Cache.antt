-- ===== src/Cost/Cache.antt =====
-- The price cache of `GetGPUPricing`.
use gpuautoscaler.Prelude.{
  ◌≡◌, refl, sym, ap, ◌∙◌, ◌+ℤ◌, ltb_ℤ, Bool, true, false, Bool-cases, Option, none, some,
  Option-cases, ◌⊎◌, inl, inr, String, str_eq, eq_iff, Entries, lookup, insert, delete,
  lookup-insert, lookup-delete, if◌then◌else◌, arith,
}
use gpuautoscaler.Prelude.Float.{Float64}
use gpuautoscaler.Prelude.Keys.{NoColon, colon_inj}
use gpuautoscaler.Prelude.Time.{Time, Duration}
use gpuautoscaler.Cost.Pricing.{
  GpuPricingRequest, GpuPricing, CachedPrice, PricingClient, new_pricing_client,
  get_estimated_pricing, fetch_aws_pricing, fetch_gcp_pricing, fetch_azure_pricing, fetch_pricing,
  fresh_pricing, region_of, cache_key, cached_price, stored, answered, get_gpu_pricing, clear_cache,
}

-- The parts of a key other than the zone, which stands last, have no colon.
abbrev pub IsPlain : GpuPricingRequest → String → Type 0
IsPlain req region = NoColon req.gpu_type × NoColon req.capacity_type × NoColon region

some_inj {ℓ} : {A : Type ℓ} {a b : A} → some a ≡ some b → a ≡ b
some_inj e = cc

module _ (fl : Float64) where
  -- The region of a request is used only through the region that is passed beside it.
  fresh_pricing-region :
      (provider : String) (req : GpuPricingRequest) (region other : String) (now : Time)
      → fresh_pricing fl provider req region now
        ≡ fresh_pricing fl provider (record req { region = other }) region now
  unfolding fresh_pricing fetch_pricing fetch_aws_pricing fetch_gcp_pricing fetch_azure_pricing
      get_estimated_pricing
  fresh_pricing-region provider req region other now = refl

  same_key :
      (provider : String) (a b : GpuPricingRequest) (ra rb : String) (now : Time)
      → IsPlain a ra
      → IsPlain b rb
      → cache_key a ra ≡ cache_key b rb
      → fresh_pricing fl provider a ra now ≡ fresh_pricing fl provider b rb now
  same_key provider a b ra rb now (ag, ac, ar) (bg, bc, br) same =
      let (gpus, rest) = colon_inj a.gpu_type b.gpu_type _ _ ag bg same in
      let (capacities, rest') = colon_inj a.capacity_type b.capacity_type _ _ ac bc rest in
      let (regions, zones) = colon_inj ra rb _ _ ar br rest' in
      let plain : (g k z r : String) → GpuPricing fl = λ g k z r.
        fresh_pricing fl provider
          (record { gpu_type = g; capacity_type = k; region = ""; zone = z }) r now in
      let step : plain a.gpu_type a.capacity_type a.zone ra
          ≡ plain b.gpu_type b.capacity_type b.zone rb =
        cc in
      fresh_pricing-region provider a ra "" now
      ∙ step
      ∙ sym (fresh_pricing-region provider b rb "" now)

  -- The price was fresh for a request with its key at a time that the expiry tells.
  pub record IsEntry (provider : String) (duration : Duration) (key : String)
      (cached : CachedPrice fl) : Type 0 where
    pub request : GpuPricingRequest
    pub region : String
    pub time : Time
    pub plain : IsPlain request region
    pub keyed : cache_key request region ≡ key
    pub valued : cached.pricing ≡ fresh_pricing fl provider request region time
    pub expires : cached.expires_at ≡ time +ℤ duration

  abbrev pub IsFresh : PricingClient fl → Type 0
  IsFresh pc =
      (key : String) (cached : CachedPrice fl)
      → lookup pc.price_cache key ≡ some cached
      → IsEntry pc.provider pc.cache_duration key cached

  -- The price of a request is what a fresh one was, at this moment or less than the cache's duration ago.
  abbrev pub IsRecent : PricingClient fl → GpuPricingRequest → Time → GpuPricing fl → Type 0
  IsRecent pc req now pricing =
      (t : Time) × (pricing ≡ fresh_pricing fl pc.provider req (region_of fl pc req) t)
      × ((t ≡ now) ⊎ (ltb_ℤ now (t +ℤ pc.cache_duration) ≡ true))

  from_cache :
      (pc : PricingClient fl) (req : GpuPricingRequest) (now : Time) (pricing : GpuPricing fl)
      → IsFresh pc
      → IsPlain req (region_of fl pc req)
      → (cached : CachedPrice fl)
      → lookup pc.price_cache (cache_key req (region_of fl pc req)) ≡ some cached
      → cached.pricing ≡ pricing
      → ltb_ℤ now cached.expires_at ≡ true
      → IsRecent pc req now pricing
  from_cache pc req now pricing fresh plain cached found same valid =
      let e = fresh (cache_key req (region_of fl pc req)) cached found in
      let region = region_of fl pc req in
      (
        e.time,
        sym same
            ∙ e.valued
            ∙ same_key pc.provider e.request req e.region region e.time e.plain plain e.keyed,
        inr (ap (ltb_ℤ now) (sym e.expires) ∙ valid),
      )

  recent :
      (pc : PricingClient fl) (req : GpuPricingRequest) (now : Time) (pricing : GpuPricing fl)
      → IsFresh pc
      → IsPlain req (region_of fl pc req)
      → cached_price fl pc (cache_key req (region_of fl pc req)) now ≡ some pricing
      → IsRecent pc req now pricing
  unfolding cached_price
  recent pc req now pricing fresh plain = elim (Bool-cases pc.cache_enabled) [
    | inr off ↦ rw off (λ e. cc)
    | inl on ↦ elim (Option-cases (lookup pc.price_cache (cache_key req (region_of fl pc req)))) [
      | inl missing ↦ rw (on, missing) (λ e. cc)
      | inr (cached, found) ↦ elim (Bool-cases (ltb_ℤ now cached.expires_at)) [
        | inr expired ↦ rw (on, found, expired) (λ e. cc)
        | inl valid ↦
            rw (on, found, valid)
              (λ e. from_cache pc req now pricing fresh plain cached found (some_inj e) valid)
      ]
    ]
  ]

  -- Of the cache after a store: a key reads the new price, another one what it read before.
  stored-lookup :
      (cache : Entries (CachedPrice fl)) (key q : String) (new : CachedPrice fl)
      → lookup (insert (delete cache key) key new) q
        ≡ (if str_eq q key then some new else lookup cache q)
  stored-lookup cache key q new =
      ground (arith, lookup-insert (delete cache key) key new q, lookup-delete cache key q)

  stored-IsFresh :
      (enabled : Bool) (pc : PricingClient fl) (req : GpuPricingRequest) (now : Time)
      → IsFresh pc
      → IsPlain req (region_of fl pc req)
      → let region = region_of fl pc req in
        IsFresh (
          stored fl enabled pc
            (cache_key req region)
            (fresh_pricing fl pc.provider req region now)
            now)
  stored-IsFresh false pc req now fresh plain = fresh
  stored-IsFresh true pc req now fresh plain = λ q cached found.
      let key = cache_key req (region_of fl pc req) in
      let read = sym (stored-lookup pc.price_cache key q _) ∙ found in
      elim (Bool-cases (str_eq q key)) [
        | inr other ↦ fresh q cached (simp other at read)
        | inl same ↦
            let e = some_inj (simp same at read) in
            record {
              request = req;
              region = region_of fl pc req;
              time = now;
              plain = plain;
              keyed = sym ((eq_iff q key).0 same);
              valued = ap (λ (c : CachedPrice fl). c.pricing) (sym e);
              expires = ap (λ (c : CachedPrice fl). c.expires_at) (sym e);
            }
      ]

  answered-IsRecent :
      (cached : Option (GpuPricing fl)) (pc : PricingClient fl) (req : GpuPricingRequest)
      (now : Time)
      → IsFresh pc
      → IsPlain req (region_of fl pc req)
      → cached_price fl pc (cache_key req (region_of fl pc req)) now ≡ cached
      → IsFresh (answered fl cached pc req now).0
        × IsRecent pc req now (answered fl cached pc req now).1
  answered-IsRecent none pc req now fresh plain e =
      (stored-IsFresh pc.cache_enabled pc req now fresh plain, (now, refl, inl refl))
  answered-IsRecent (some pricing) pc req now fresh plain e =
      (fresh, recent pc req now pricing fresh plain e)

  -- The clients that calls of `GetGPUPricing` and `ClearCache` lead to.
  pub data Reached : PricingClient fl → Type 0 where
    made : (provider region : String) → Reached (new_pricing_client fl provider region)
    asked :
        {pc : PricingClient fl} (req : GpuPricingRequest) (now : Time)
        → Reached pc
        → IsPlain req (region_of fl pc req)
        → Reached (get_gpu_pricing fl pc req now).0
    cleared : {pc : PricingClient fl} → Reached pc → Reached (clear_cache fl pc)

  Reached-IsFresh : {pc : PricingClient fl} → Reached pc → IsFresh pc
  unfolding get_gpu_pricing lookup
  Reached-IsFresh (made provider region) = λ key cached found. cc
  Reached-IsFresh (asked {pc} req now before plain) =
      (answered-IsRecent (cached_price fl pc (cache_key req (region_of fl pc req)) now) pc req now
        (Reached-IsFresh before) plain refl).0
  Reached-IsFresh (cleared before) = λ key cached found. cc

  -- Whatever calls came before, the price that `GetGPUPricing` returns is what a client without a cache
  -- would return now or would have returned less than the cache's duration ago, as long as no GPU type,
  -- capacity type or region that is asked for has a colon.
  pub get_gpu_pricing-IsRecent :
      {pc : PricingClient fl}
      → Reached pc
      → (req : GpuPricingRequest) (now : Time) → IsPlain req (region_of fl pc req)
      → IsRecent pc req now (get_gpu_pricing fl pc req now).1
  unfolding get_gpu_pricing
  get_gpu_pricing-IsRecent {pc} reached req now plain =
      (answered-IsRecent (cached_price fl pc (cache_key req (region_of fl pc req)) now) pc req now
        (Reached-IsFresh reached) plain refl).1
