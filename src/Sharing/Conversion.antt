-- ===== src/Sharing/Conversion.antt =====
-- What `ConvertPodToMIG` makes of a pod's containers.
use mathlib.Core.Path.{subst}
use gpuautoscaler.Prelude.{
  ◌≡◌, ◌≢◌, refl, sym, ◌∙◌, ap, ◌⊎◌, inl, inr, ℤ, pos, Option, none, some, List, [], ◌∷◌, All,
  if◌then◌else◌, String, str_eq, map_get, GoMap, Entries, insert, delete, lookup-insert,
  lookup-delete,
}
use gpuautoscaler.Kube.{Container, gpu_resource}
use gpuautoscaler.Sharing.Mig.{
  asked, swapped, convert_asked, convert_container, consed, convert_containers,
}

-- A container that requests no whole GPUs, or that has limits too.
abbrev pub IsConvertible : Container → Type 0
IsConvertible c = (asked c ≡ none) ⊎ ((limits : Entries ℤ) × (c.limits ≡ some limits))

-- The same but for the MIG device in place of whole GPUs.
abbrev pub Swaps : String → GoMap ℤ → GoMap ℤ → Type 0
Swaps device before after =
    (k : String)
    → map_get k after ≡ (
        if str_eq k device
        then some (pos 1)
        else if str_eq k gpu_resource
        then none
        else map_get k before)

abbrev pub Converted : String → Container → Container → Type 0
Converted device c c' =
    (asked c ≡ none → c' ≡ c)
    × (asked c ≢ none → Swaps device c.requests c'.requests × Swaps device c.limits c'.limits)

abbrev pub ContainerOutcome : String → Container → Option Container → Type 0
ContainerOutcome device c none = ¬ IsConvertible c
ContainerOutcome device c (some c') = IsConvertible c × Converted device c c'

Swaps-entries :
    (device : String) (es : Entries ℤ)
    → Swaps device (some es) (some (insert (delete es gpu_resource) device (pos 1)))
Swaps-entries device es k =
    lookup-insert (delete es gpu_resource) device (pos 1) k
    ∙ ap (λ x. if str_eq k device then some (pos 1) else x) (lookup-delete es gpu_resource k)

swapped-outcome :
    (device : String) (c : Container) (requests limits : GoMap ℤ) (n : ℤ)
    → c.requests ≡ requests
    → c.limits ≡ limits
    → asked c ≡ some n
    → ContainerOutcome device c (swapped device requests limits)
swapped-outcome device c none limits n r l asks =
    let idle : asked c ≡ none = ap (map_get gpu_resource) r in absurd cc
swapped-outcome device c (some rs) none n r l asks =
    λ h. elim h [ inl idle ↦ absurd cc | inr (ls, at) ↦ absurd cc ]
swapped-outcome device c (some rs) (some ls) n r l asks = (
  inr (ls, l),
  (
    (λ idle. absurd cc),
    λ _. (
      subst (λ m. Swaps device m (some (insert (delete rs gpu_resource) device (pos 1)))) (sym r)
          (Swaps-entries device rs),
      subst (λ m. Swaps device m (some (insert (delete ls gpu_resource) device (pos 1)))) (sym l)
          (Swaps-entries device ls),
    ),
  ),
)

convert_asked-outcome :
    (device : String) (c : Container) (o : Option ℤ)
    → asked c ≡ o
    → ContainerOutcome device c (convert_asked o device c)
convert_asked-outcome device c none idle = (inl idle, ((λ _. refl), λ h. absurd (h idle)))
convert_asked-outcome device c (some n) asks =
    swapped-outcome device c c.requests c.limits n refl refl asks

convert_container-outcome :
    (device : String) (c : Container) → ContainerOutcome device c (convert_container device c)
unfolding convert_container
convert_container-outcome device c = convert_asked-outcome device c (asked c) refl

abbrev pub AllConverted : String → List Container → List Container → Type 0
AllConverted device [] [] = Unit
AllConverted device (c ∷ cs) (c' ∷ cs') = Converted device c c' × AllConverted device cs cs'
AllConverted device _ _ = ⊥

abbrev pub Outcome : String → List Container → Option (List Container) → Type 0
Outcome device cs none = ¬ All IsConvertible cs
Outcome device cs (some cs') = All IsConvertible cs × AllConverted device cs cs'

consed-outcome :
    (device : String) (c : Container) (cs : List Container) (o : Option Container)
    (os : Option (List Container))
    → ContainerOutcome device c o
    → Outcome device cs os
    → Outcome device (c ∷ cs) (consed o os)
consed-outcome device c cs none os h k = λ all. h all.0
consed-outcome device c cs (some c') none h k = λ all. k all.1
consed-outcome device c cs (some c') (some cs') h k = ((h.0, k.0), (h.1, k.1))

-- The conversion panics exactly if some container requests whole GPUs and has no limits at all. Else
-- the containers that request no GPUs stay as they are, and in each other one the MIG device, once, takes
-- the place of the GPUs in the requests and in the limits, and no other resource changes.
pub convert_containers-outcome :
    (device : String) (cs : List Container) → Outcome device cs (convert_containers device cs)
unfolding convert_containers
convert_containers-outcome device [] = (tt, tt)
convert_containers-outcome device (c ∷ cs) =
    consed-outcome device c cs (convert_container device c) (convert_containers device cs)
      (convert_container-outcome device c) (convert_containers-outcome device cs)
