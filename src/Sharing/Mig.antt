-- ===== src/Sharing/Mig.antt =====
-- `GetSupportedProfiles`, `GetMIGProfile` and `ConvertPodToMIG`. The text of a number in decimal, which
-- `fmt.Sprintf` makes, is a parameter.
use gpuautoscaler.Prelude.{
  ℕ, suc, ◌/◌, ◌^◌, ℤ, pos, negsuc, sub_ℕ, Option, none, some, List, [], ◌∷◌, ◌++◌, if◌then◌else◌,
  leb_ℤ, add64, map_get, GoMap, Entries, insert, delete, String,
}
use Prim.Native.String.{◌++◌ as joined}
use gpuautoscaler.Kube.{Pod, Container, gpu_resource}

-- The description of a profile is left out.
pub record MigProfile : Type 0 where
  pub name : String
  pub slice_count : ℤ
  pub memory : ℤ
  pub compute : ℤ
  pub device_id : String

abbrev profile : String → ℕ → ℕ → MigProfile
profile name slices memory = record {
  name = name;
  slice_count = pos slices;
  memory = pos memory;
  compute = pos slices;
  device_id = name;
}

abbrev pub a100_40gb_profiles : List MigProfile
a100_40gb_profiles =
    profile "1g.5gb" 1 5120
    ∷ profile "2g.10gb" 2 10240
    ∷ profile "3g.20gb" 3 20480
    ∷ profile "4g.20gb" 4 20480
    ∷ profile "7g.40gb" 7 40960
    ∷ []

abbrev pub a100_80gb_profiles : List MigProfile
a100_80gb_profiles =
    profile "1g.10gb" 1 10240
    ∷ profile "2g.20gb" 2 20480
    ∷ profile "3g.40gb" 3 40960
    ∷ profile "4g.40gb" 4 40960
    ∷ profile "7g.80gb" 7 81920
    ∷ []

abbrev pub get_supported_profiles : List MigProfile
get_supported_profiles = a100_40gb_profiles ++ a100_80gb_profiles

-- `memoryRequest / (1024 * 1024)`, which rounds towards zero.
unfoldable pub in_megabytes : ℤ → ℤ
in_megabytes (pos n) = pos (n / 2 ^ 20)
in_megabytes (negsuc n) = sub_ℕ 0 (suc n / 2 ^ 20)

unfoldable pub find_profile : ℤ → ℤ → List MigProfile → Option MigProfile
find_profile gpus memory [] = none
find_profile gpus memory (p ∷ ps) =
    if leb_ℤ gpus p.compute
    then (if leb_ℤ memory p.memory then some p else find_profile gpus memory ps)
    else find_profile gpus memory ps

-- `none` where the code returns an error.
unfoldable pub get_mig_profile : ℤ → ℤ → Option MigProfile
unfolding find_profile in_megabytes
get_mig_profile gpu_request memory_request =
    find_profile gpu_request (in_megabytes memory_request) get_supported_profiles

-- One container with the resource of a MIG device in place of whole GPUs. Writing to a nil map panics:
-- `none`.
abbrev pub swapped : String → GoMap ℤ → GoMap ℤ → Option Container
swapped device (some requests) (some limits) = some (record {
  requests = some (insert (delete requests gpu_resource) device (pos 1));
  limits = some (insert (delete limits gpu_resource) device (pos 1));
})
swapped device _ _ = none

abbrev pub asked : Container → Option ℤ
asked c = map_get gpu_resource c.requests

abbrev pub convert_asked : Option ℤ → String → Container → Option Container
convert_asked none device c = some c
convert_asked (some n) device c = swapped device c.requests c.limits

unfoldable pub convert_container : String → Container → Option Container
convert_container device c = convert_asked (asked c) device c

abbrev pub consed : Option Container → Option (List Container) → Option (List Container)
consed (some c) (some cs) = some (c ∷ cs)
consed _ _ = none

unfoldable pub convert_containers : String → List Container → Option (List Container)
unfolding convert_container
convert_containers device [] = some []
convert_containers device (c ∷ cs) =
    consed (convert_container device c) (convert_containers device cs)

abbrev pub plus_asked : ℤ → Option ℤ → ℤ
plus_asked total none = total
plus_asked total (some n) = add64 total n

unfoldable pub original_gpu_request : ℤ → List Container → ℤ
original_gpu_request total [] = total
original_gpu_request total (c ∷ cs) = original_gpu_request (plus_asked total (asked c)) cs

unfoldable pub get_mig_device_resource_name : MigProfile → String
get_mig_device_resource_name p = joined "nvidia.com/mig-" p.device_id

abbrev pub entries_of : GoMap String → Entries String
entries_of none = []
entries_of (some es) = es

unfoldable pub annotated : String → String → GoMap String → GoMap String
unfolding insert
annotated request name annotations =
    let es = insert (entries_of annotations) "gpu-autoscaler.io/original-gpu-request" request in
    some (insert es "gpu-autoscaler.io/mig-profile" name)

-- `none` is the panic.
unfoldable pub convert_pod_to_mig : (ℤ → String) → Pod → MigProfile → Option Pod
unfolding convert_containers original_gpu_request annotated get_mig_device_resource_name
convert_pod_to_mig decimal pod p =
    let request = decimal (original_gpu_request (pos 0) pod.containers) in
    let annotations = annotated request p.name pod.annotations in
    elim (convert_containers (get_mig_device_resource_name p) pod.containers) [
      | none ↦ none
      | some cs ↦ some (record pod { annotations = annotations; containers = cs })
    ]
