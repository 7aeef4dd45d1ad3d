-- ===== src/Sharing/Profiles.antt =====
-- Which profile `GetMIGProfile` selects.
use gpuautoscaler.Prelude.{
  ◌≡◌, ◌⊎◌, refl, sym, inl, inr, ℤ, ◌≤ℤ◌, leb_ℤ, Bool-cases, Option, none, some, List, [], ◌∷◌,
  ◌++◌, All, arith,
}
use mathlib.Core.Path.{subst}
use gpuautoscaler.Sharing.Mig.{
  MigProfile, a100_40gb_profiles, a100_80gb_profiles, in_megabytes, find_profile, get_mig_profile,
}

abbrev pub Fits : ℤ → ℤ → MigProfile → Type 0
Fits gpus memory p = (gpus ≤ℤ p.compute) × (memory ≤ℤ p.memory)

abbrev pub IsSmaller : MigProfile → MigProfile → Type 0
IsSmaller p q = (p.compute ≤ℤ q.compute) × (p.memory ≤ℤ q.memory)

abbrev pub IsAscending : List MigProfile → Type 0
IsAscending [] = Unit
IsAscending (p ∷ ps) = All (IsSmaller p) ps × IsAscending ps

-- The profile fits, and no other of a list that fits is smaller in compute or memory.
abbrev pub IsLeast : ℤ → ℤ → List MigProfile → MigProfile → Type 0
IsLeast gpus memory ps p = Fits gpus memory p × All (λ q. Fits gpus memory q → IsSmaller p q) ps

All-IsSmaller :
    (gpus memory : ℤ) (p : MigProfile) (ps : List MigProfile)
    → All (IsSmaller p) ps
    → All (λ q. Fits gpus memory q → IsSmaller p q) ps
All-IsSmaller gpus memory p [] h = tt
All-IsSmaller gpus memory p (q ∷ qs) (h, hs) = ((λ _. h), All-IsSmaller gpus memory p qs hs)

-- What a search through an ascending list finds.
abbrev pub Found : ℤ → ℤ → List MigProfile → Option MigProfile → Type 0
Found gpus memory ps none = All (λ q. ¬ Fits gpus memory q) ps
Found gpus memory ps (some p) = IsLeast gpus memory ps p

Found-later :
    (gpus memory : ℤ) (p : MigProfile) (ps : List MigProfile) (o : Option MigProfile)
    → ¬ Fits gpus memory p
    → Found gpus memory ps o
    → Found gpus memory (p ∷ ps) o
Found-later gpus memory p ps none misses h = (misses, h)
Found-later gpus memory p ps (some q) misses (fits, h) = (fits, ((λ f. absurd (misses f)), h))

find_profile-Found :
    (gpus memory : ℤ) (ps : List MigProfile)
    → IsAscending ps
    → Found gpus memory ps (find_profile gpus memory ps)
unfolding find_profile
find_profile-Found gpus memory [] h = tt
find_profile-Found gpus memory (p ∷ ps) (smaller, rest) =
    let ih = find_profile-Found gpus memory ps rest in
    let later = Found-later gpus memory p ps (find_profile gpus memory ps) in
    elim (Bool-cases (leb_ℤ gpus p.compute)) [
      | inl a ↦ elim (Bool-cases (leb_ℤ memory p.memory)) [
        | inl b ↦
            rw (a, b)
              (
                (ground arith, ground arith),
                ((λ _. (omega arith, omega arith)), All-IsSmaller gpus memory p ps smaller),
              )
        | inr b ↦ rw (a, b) (later (λ f. ground arith) ih)
      ]
      | inr a ↦ rw a (later (λ f. ground arith) ih)
    ]

abbrev pub or_else : Option MigProfile → Option MigProfile → Option MigProfile
or_else none o = o
or_else (some p) o = some p

find_profile-append :
    (gpus memory : ℤ) (ps qs : List MigProfile)
    → find_profile gpus memory (ps ++ qs)
      ≡ or_else (find_profile gpus memory ps) (find_profile gpus memory qs)
unfolding find_profile
find_profile-append gpus memory [] qs = refl
find_profile-append gpus memory (p ∷ ps) qs =
    let ih = find_profile-append gpus memory ps qs in ground (arith, ih)

-- What the search through both families finds.
abbrev pub Selected : ℤ → ℤ → Option MigProfile → Type 0
Selected gpus memory none =
    All (λ q. ¬ Fits gpus memory q) a100_40gb_profiles
    × All (λ q. ¬ Fits gpus memory q) a100_80gb_profiles
Selected gpus memory (some p) =
    IsLeast gpus memory a100_40gb_profiles p
    ⊎ (All (λ q. ¬ Fits gpus memory q) a100_40gb_profiles
        × IsLeast gpus memory a100_80gb_profiles p)

or_else-Selected :
    (gpus memory : ℤ) (small large : Option MigProfile)
    → Found gpus memory a100_40gb_profiles small
    → Found gpus memory a100_80gb_profiles large
    → Selected gpus memory (or_else small large)
or_else-Selected gpus memory none none h k = (h, k)
or_else-Selected gpus memory none (some q) h k = inr (h, k)
or_else-Selected gpus memory (some p) large h k = inl h

-- `GetMIGProfile` returns a profile that fits the request, in compute and in memory in megabytes rounded
-- towards zero: the least of the A100-40GB profiles that fit, and only if none of them fits the least of
-- the A100-80GB ones. It returns an error only if no profile fits.
pub get_mig_profile-Selected :
    (gpu_request memory_request : ℤ)
    → Selected gpu_request
        (in_megabytes memory_request)
        (get_mig_profile gpu_request memory_request)
unfolding get_mig_profile
get_mig_profile-Selected gpu_request memory_request =
    let memory = in_megabytes memory_request in
    let small = find_profile-Found gpu_request memory a100_40gb_profiles (omega arith) in
    let large = find_profile-Found gpu_request memory a100_80gb_profiles (omega arith) in
    subst (Selected gpu_request memory)
      (sym (find_profile-append gpu_request memory a100_40gb_profiles a100_80gb_profiles))
      (or_else-Selected gpu_request memory _ _ small large)
