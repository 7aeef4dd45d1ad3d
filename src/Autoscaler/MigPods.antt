-- ===== src/Autoscaler/MigPods.antt =====
-- The test for MIG resources in `isGPUPod`.
use gpuautoscaler.Prelude.{
  ◌≡◌, refl, ℤ, List, [], ◌∷◌, arith, if◌then◌else◌, Bool, true, false, Bool-cases, inl, inr,
  String, Entries, GoMap, none, some, map_get,
}
use gpuautoscaler.Prelude.Text.{bytes, first, same_bytes, length-first-le, same_bytes-length}
use gpuautoscaler.Kube.{Pod, Container, gpu_resource}
use gpuautoscaler.Autoscaler.Observe.{
  is_some, names_mig, any_mig, any_mig_in, gpu_containers, is_gpu_pod,
}

-- Eleven bytes are never the fifteen of "nvidia.com/mig-".
names_mig-false : (name : String) → names_mig name ≡ false
names_mig-false name =
    let prefix = first 11 (bytes name) in
    let short = length-first-le 11 (bytes name) in
    elim (Bool-cases (same_bytes prefix (bytes "nvidia.com/mig-"))) [
      | inl same ↦
          let equal = same_bytes-length prefix (bytes "nvidia.com/mig-") same in
          absurd (omega arith)
      | inr differ ↦ ground (arith, differ)
    ]

any_mig-false : (es : Entries ℤ) → any_mig es ≡ false
unfolding any_mig
any_mig-false [] = refl
any_mig-false (e ∷ es) = rw (names_mig-false e.key) (any_mig-false es)

-- Some container asks for whole GPUs.
abbrev pub asks_for_gpus : List Container → Bool
asks_for_gpus [] = false
asks_for_gpus (c ∷ cs) =
    let rest = asks_for_gpus cs in if is_some (map_get gpu_resource c.requests) then true else rest

requests_mig-false : (requests : GoMap ℤ) → any_mig_in requests ≡ false
requests_mig-false none = refl
requests_mig-false (some es) = any_mig-false es

gpu_containers-eq : (cs : List Container) → gpu_containers cs ≡ asks_for_gpus cs
unfolding gpu_containers
gpu_containers-eq [] = refl
gpu_containers-eq (c ∷ cs) = rw (requests_mig-false c.requests, gpu_containers-eq cs) refl

-- `isGPUPod` recognises exactly the pods that request `nvidia.com/gpu`: a pod that requests MIG devices
-- alone never counts, whatever the names of its resources.
pub is_gpu_pod-asks_for_gpus : (pod : Pod) → is_gpu_pod pod ≡ asks_for_gpus pod.containers
unfolding is_gpu_pod
is_gpu_pod-asks_for_gpus pod = gpu_containers-eq pod.containers
