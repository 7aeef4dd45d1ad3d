-- ===== src/Cost/Tables.antt =====
-- The tables of pkg/cost/pricing.go.
use gpuautoscaler.Prelude.{
  ℕ, Option, none, some, String, [], ◌∷◌, Entries, Entry, entry, lookup, All, Bool, true, false,
  str_eq, if◌then◌else◌,
}
use gpuautoscaler.Prelude.Float.{Float64}

-- `if v, ok := m[key]; ok { return v }; return other`
abbrev pub found_or {ℓ} : {V : Type ℓ} → Option V → V → V
found_or none other = other
found_or (some v) other = v

abbrev pub aws_instances : Entries String
aws_instances =
    entry "nvidia-tesla-a100" "p4d.24xlarge"
    ∷ entry "nvidia-a100-80gb" "p4de.24xlarge"
    ∷ entry "nvidia-tesla-v100" "p3.2xlarge"
    ∷ entry "nvidia-tesla-t4" "g4dn.xlarge"
    ∷ entry "nvidia-a10" "g5.xlarge"
    ∷ []

abbrev gcp_machines : Entries String
gcp_machines =
    entry "nvidia-tesla-a100" "a2-highgpu-1g"
    ∷ entry "nvidia-tesla-v100" "n1-standard-4-v100"
    ∷ entry "nvidia-tesla-t4" "n1-standard-4-t4"
    ∷ []

abbrev azure_sizes : Entries String
azure_sizes =
    entry "nvidia-tesla-a100" "Standard_ND96asr_v4"
    ∷ entry "nvidia-tesla-v100" "Standard_NC6s_v3"
    ∷ entry "nvidia-tesla-t4" "Standard_NC4as_T4_v3"
    ∷ []

abbrev aws_counts : Entries ℕ
aws_counts =
    entry "p4d.24xlarge" 8
    ∷ entry "p4de.24xlarge" 8
    ∷ entry "p3.2xlarge" 1
    ∷ entry "p3.8xlarge" 4
    ∷ entry "p3.16xlarge" 8
    ∷ entry "g5.xlarge" 1
    ∷ entry "g5.2xlarge" 1
    ∷ entry "g4dn.xlarge" 1
    ∷ entry "g4dn.2xlarge" 1
    ∷ []

abbrev gcp_counts : Entries ℕ
gcp_counts =
    entry "a2-highgpu-1g" 1
    ∷ entry "a2-highgpu-2g" 2
    ∷ entry "a2-highgpu-4g" 4
    ∷ entry "a2-highgpu-8g" 8
    ∷ []

abbrev azure_counts : Entries ℕ
azure_counts =
    entry "Standard_ND96asr_v4" 8
    ∷ entry "Standard_ND96amsr_A100_v4" 8
    ∷ entry "Standard_NC6s_v3" 1
    ∷ entry "Standard_NC12s_v3" 2
    ∷ entry "Standard_NC24s_v3" 4
    ∷ entry "Standard_NC4as_T4_v3" 1
    ∷ []

unfoldable pub map_gpu_type_to_aws_instance : String → String
unfolding lookup
map_gpu_type_to_aws_instance t = found_or (lookup aws_instances t) "p3.2xlarge"

unfoldable pub map_gpu_type_to_gcp_machine : String → String
unfolding lookup
map_gpu_type_to_gcp_machine t = found_or (lookup gcp_machines t) "a2-highgpu-1g"

unfoldable pub map_gpu_type_to_azure_vm : String → String
unfolding lookup
map_gpu_type_to_azure_vm t = found_or (lookup azure_sizes t) "Standard_ND96asr_v4"

unfoldable pub get_gpu_count_for_instance_type : String → ℕ
unfolding lookup
get_gpu_count_for_instance_type t = found_or (lookup aws_counts t) 1

unfoldable pub get_gpu_count_for_machine_type : String → ℕ
unfolding lookup
get_gpu_count_for_machine_type t = found_or (lookup gcp_counts t) 1

unfoldable pub get_gpu_count_for_vm_size : String → ℕ
unfolding lookup
get_gpu_count_for_vm_size t = found_or (lookup azure_counts t) 1

-- Of the entries of a table with a default: what holds of every value and of the default holds of the
-- answer.
pub found-All {ℓ κ} :
    {V : Type ℓ} (P : V → Type κ) (es : Entries V) (k : String) (other : V)
    → All (λ (e : Entry V). P e.value) es
    → P other
    → P (found_or (lookup es k) other)
unfolding lookup
found-All P [] k other _ h = h
found-All P (e ∷ es) k other (p, ps) h = found_step (str_eq k e.key) p (found-All P es k other ps h)
  where
    found_step :
        (b : Bool)
        → P e.value
        → P (found_or (lookup es k) other)
        → P (found_or (if b then some e.value else lookup es k) other)
    found_step true p _ = p
    found_step false _ q = q

module _ (fl : Float64) where
  -- A price of `cents` hundredths, and one of thousandths.
  abbrev cents : ℕ → fl.F
  cents n = fl.lit n 2

  abbrev mills : ℕ → fl.F
  mills n = fl.lit n 3

  unfoldable pub get_aws_on_demand_prices : Entries fl.F
  get_aws_on_demand_prices =
      entry "us-east-1:p4d.24xlarge" (cents 3277)
      ∷ entry "us-east-1:p4de.24xlarge" (cents 4096)
      ∷ entry "us-east-1:p3.2xlarge" (cents 306)
      ∷ entry "us-east-1:p3.8xlarge" (cents 1224)
      ∷ entry "us-east-1:p3.16xlarge" (cents 2448)
      ∷ entry "us-east-1:g5.xlarge" (mills 1006)
      ∷ entry "us-east-1:g5.2xlarge" (mills 1212)
      ∷ entry "us-east-1:g4dn.xlarge" (mills 526)
      ∷ entry "us-east-1:g4dn.2xlarge" (mills 752)
      ∷ entry "us-west-2:p4d.24xlarge" (cents 3277)
      ∷ entry "us-west-2:p3.2xlarge" (cents 306)
      ∷ entry "us-west-2:g5.xlarge" (mills 1006)
      ∷ entry "us-west-2:g4dn.xlarge" (mills 526)
      ∷ []

  unfoldable pub get_aws_spot_prices : Entries fl.F
  get_aws_spot_prices =
      entry "us-east-1:p4d.24xlarge" (cents 1147)
      ∷ entry "us-east-1:p4de.24xlarge" (cents 1434)
      ∷ entry "us-east-1:p3.2xlarge" (cents 107)
      ∷ entry "us-east-1:p3.8xlarge" (cents 428)
      ∷ entry "us-east-1:g5.xlarge" (cents 35)
      ∷ entry "us-east-1:g4dn.xlarge" (cents 18)
      ∷ []

  unfoldable pub get_gcp_prices : Entries fl.F
  get_gcp_prices =
      entry "us-central1:a2-highgpu-1g:on-demand" (cents 367)
      ∷ entry "us-central1:a2-highgpu-8g:on-demand" (cents 2939)
      ∷ entry "us-central1:a2-highgpu-1g:preemptible" (cents 110)
      ∷ entry "us-central1:a2-highgpu-8g:preemptible" (cents 882)
      ∷ entry "us-central1:n1-standard-4-t4:on-demand" (cents 95)
      ∷ entry "us-central1:n1-standard-4-t4:preemptible" (cents 29)
      ∷ entry "europe-west4:a2-highgpu-1g:on-demand" (cents 403)
      ∷ entry "europe-west4:a2-highgpu-8g:on-demand" (cents 3228)
      ∷ entry "europe-west4:a2-highgpu-1g:preemptible" (cents 121)
      ∷ entry "europe-west4:a2-highgpu-8g:preemptible" (cents 969)
      ∷ []

  unfoldable pub get_azure_prices : Entries fl.F
  get_azure_prices =
      entry "eastus:Standard_ND96asr_v4:regular" (cents 3240)
      ∷ entry "eastus:Standard_ND96asr_v4:spot" (cents 1134)
      ∷ entry "eastus:Standard_NC6s_v3:regular" (cents 306)
      ∷ entry "eastus:Standard_NC6s_v3:spot" (cents 107)
      ∷ entry "eastus:Standard_NC4as_T4_v3:regular" (mills 526)
      ∷ entry "eastus:Standard_NC4as_T4_v3:spot" (mills 184)
      ∷ entry "westus2:Standard_ND96asr_v4:regular" (cents 3240)
      ∷ entry "westus2:Standard_ND96asr_v4:spot" (cents 1134)
      ∷ entry "westus2:Standard_NC6s_v3:regular" (cents 306)
      ∷ entry "westus2:Standard_NC6s_v3:spot" (cents 107)
      ∷ []

  -- The table in `getEstimatedPricing`.
  unfoldable pub estimates : Entries fl.F
  estimates =
      entry "nvidia-tesla-a100" (cents 300)
      ∷ entry "nvidia-a100-80gb" (cents 400)
      ∷ entry "nvidia-h100" (cents 500)
      ∷ entry "nvidia-h100-80gb" (cents 550)
      ∷ entry "nvidia-tesla-v100" (cents 250)
      ∷ entry "nvidia-tesla-v100-32gb" (cents 280)
      ∷ entry "nvidia-tesla-t4" (cents 95)
      ∷ entry "nvidia-a10" (cents 120)
      ∷ entry "nvidia-l4" (cents 85)
      ∷ []
