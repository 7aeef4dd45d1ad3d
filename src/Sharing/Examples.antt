-- ===== src/Sharing/Examples.antt =====
-- Tests of pkg/sharing/mig.go, and its theorems at small requests.
use gpuautoscaler.Prelude.{
  ◌≡◌, refl, ◌*◌, ◌^◌, pos, Option, none, some, List, [], ◌∷◌, entry, String,
}
use gpuautoscaler.Kube.{Container, gpu_resource}
use gpuautoscaler.Sharing.Mig.{MigProfile, get_mig_profile, find_profile, in_megabytes}
use gpuautoscaler.Sharing.Profiles.{Selected, get_mig_profile-Selected}

-- The cases of `TestGetMIGProfile`: 4 GB, 8 GB and 18 GB of memory, and a request that nothing fits.
abbrev name_of : Option MigProfile → String
name_of none = ""
name_of (some p) = p.name

test_get_mig_profile :
    (name_of (get_mig_profile (pos 1) (pos (4 * 2 ^ 30))) ≡ "1g.5gb")
    × (name_of (get_mig_profile (pos 1) (pos (8 * 2 ^ 30))) ≡ "2g.10gb")
    × (name_of (get_mig_profile (pos 2) (pos (18 * 2 ^ 30))) ≡ "3g.20gb")
    × (get_mig_profile (pos 8) (pos (100 * 2 ^ 30)) ≡ none)
unfolding get_mig_profile find_profile in_megabytes
test_get_mig_profile = (refl, refl, refl, refl)

get_mig_profile-Selected_example :
    Selected (pos 1) (in_megabytes (pos (8 * 2 ^ 30))) (get_mig_profile (pos 1) (pos (8 * 2 ^ 30)))
get_mig_profile-Selected_example = get_mig_profile-Selected (pos 1) (pos (8 * 2 ^ 30))

abbrev containers : List Container
containers =
    record {
      requests = some (entry gpu_resource (pos 1) ∷ entry "memory" (pos 5) ∷ []);
      limits = some (entry gpu_resource (pos 1) ∷ []);
    }
    ∷ record { requests = none; limits = none }
    ∷ []
