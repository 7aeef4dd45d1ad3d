-- ===== src/Scheduler/Examples.antt =====
-- Tests of pkg/scheduler/binpacking.go, and its theorems at a small cluster.
use mathlib.Core.List.{Perm}
use mathlib.Core.List.Perm
use gpuautoscaler.Prelude.{
  ℕ, ◌≡◌, refl, ℤ, pos, ◌≤ℤ◌, ◌+ℤ◌, sub64, Bool, true, false, none, some, List, [], ◌∷◌, arith, All,
  All-get, length, keep, String, entry, lookup, if◌then◌else◌, Bool-cases, inl, inr,
}
use gpuautoscaler.Prelude.Fixed.{fixed, fixed-IsIeee}
use gpuautoscaler.Prelude.Results.{ok, err, message}
use gpuautoscaler.Prelude.Time.{zero_time}
use gpuautoscaler.Kube.{Pod, Node, PodPhase, pending, running, gpu_resource}
use gpuautoscaler.Scheduler.Report.{analyze_consolidation_opportunities}
use gpuautoscaler.Scheduler.Halves.{
  is_half_free, free_gpus, analyze_consolidation_opportunities-half_free,
}
use gpuautoscaler.Scheduler.Model.{GpuNode, GpuWorkload, best_fit, first_fit, worst_fit}
use gpuautoscaler.Scheduler.Select.{select_node}
use gpuautoscaler.Scheduler.Pack.{Sort, less, PackState, start, pack_workloads}
use gpuautoscaler.Scheduler.Discover.{gpu_node}
use gpuautoscaler.Scheduler.Choice.{IsOrderly, Chosen}
use gpuautoscaler.Scheduler.Preference.{select_node-Chosen}
use gpuautoscaler.Scheduler.Packing.{IsPacking, IsModest, pack_workloads-IsPacking}
use gpuautoscaler.Scheduler.Capacity.{gpu_node-conserves}

abbrev gpu_pod : String → PodPhase → ℕ → ℤ → Pod
gpu_pod name phase gpus priority = record {
  name = name;
  namespace = "default";
  node_name = "";
  phase = phase;
  labels = none;
  annotations = none;
  containers = record { requests = some (entry gpu_resource (pos gpus) ∷ []); limits = none } ∷ [];
  priority = some priority;
  created = zero_time;
  start_time = none;
  node_selector = none;
  tolerations = [];
}

abbrev gpu_host : String → ℕ → GpuNode
gpu_host name free = record {
  name = name;
  total_gpus = pos 8;
  available_gpus = pos free;
  gpu_type = "A100";
  allocated_pods = [];
  supports_mig = true;
  supports_mps = false;
  supports_time_slice = false;
}

abbrev hosts : List GpuNode
hosts = gpu_host "a" 8 ∷ gpu_host "b" 3 ∷ gpu_host "c" 4 ∷ gpu_host "d" 3 ∷ []

abbrev small : GpuWorkload
small = record {
  pod = gpu_pod "small" pending 2 (pos 0);
  gpu_request = pos 2;
  memory_request = pos 0;
  priority = pos 0;
  sharing_enabled = false;
  preferred_mode = "exclusive";
}

abbrev large : GpuWorkload
large = record {
  pod = gpu_pod "large" pending 9 (pos 0);
  gpu_request = pos 9;
  memory_request = pos 0;
  priority = pos 5;
  sharing_enabled = false;
  preferred_mode = "exclusive";
}

-- Free GPUs count, not the share in use: best fit takes the idle host with two GPUs, worst fit the one
-- with five of eight in use.
abbrev uneven : List GpuNode
uneven = gpu_host "wide" 3 ∷ record (gpu_host "idle" 2) { total_gpus = pos 2 } ∷ []

utilization_ignored :
    (select_node fixed best_fit uneven small ≡ some 1)
    × (select_node fixed worst_fit uneven small ≡ some 0)
unfolding select_node sub64
utilization_ignored = (refl, refl)

-- Best fit takes the first host with the fewest free GPUs, worst fit the one with the most.
choices :
    (select_node fixed best_fit hosts small ≡ some 1)
    × (select_node fixed first_fit hosts small ≡ some 0)
    × (select_node fixed worst_fit hosts small ≡ some 0)
    × (select_node fixed best_fit hosts large ≡ none)
unfolding select_node sub64
choices = (refl, refl, refl, refl)

hosts-IsModest : All IsModest hosts
hosts-IsModest = omega arith

orderly : (w : GpuWorkload) → pos 0 ≤ℤ w.gpu_request → IsOrderly hosts w
orderly w asks = record {
  request = asks;
  countable = λ j m at. let h = All-get IsModest hosts j m hosts-IsModest at in omega (arith, h.0);
}

select_node-Chosen_example : Chosen hosts small best_fit 1
select_node-Chosen_example =
    select_node-Chosen fixed fixed-IsIeee hosts small (orderly small (omega arith)) best_fit 1
      choices.0

-- Insertion sort stands for `sort.Slice`.
insert_sorted :
    (GpuWorkload → GpuWorkload → Bool) → GpuWorkload → List GpuWorkload → List GpuWorkload
insert_sorted before w [] = w ∷ []
insert_sorted before w (v ∷ vs) =
    let rest = insert_sorted before w vs in if before v w then v ∷ rest else w ∷ v ∷ vs

insertion_sort : Sort
insertion_sort before [] = []
insertion_sort before (w ∷ ws) = insert_sorted before w (insertion_sort before ws)

insert_sorted-perm :
    (before : GpuWorkload → GpuWorkload → Bool) (w : GpuWorkload) (ws : List GpuWorkload)
    → Perm (insert_sorted before w ws) (w ∷ ws)
unfolding insert_sorted
insert_sorted-perm before w [] = Perm.rfl
insert_sorted-perm before w (v ∷ vs) = elim (Bool-cases (before v w)) [
  | inl e ↦ rw e (Perm.trans (Perm.cons v (insert_sorted-perm before w vs)) (Perm.swap w v vs))
  | inr e ↦ rw e Perm.rfl
]

insertion_sort-perm :
    (before : GpuWorkload → GpuWorkload → Bool) (ws : List GpuWorkload)
    → Perm (insertion_sort before ws) ws
unfolding insertion_sort
insertion_sort-perm before [] = Perm.rfl
insertion_sort-perm before (w ∷ ws) =
    Perm.trans (insert_sorted-perm before w (insertion_sort before ws))
      (Perm.cons w (insertion_sort-perm before ws))

pack_workloads-IsPacking_example :
    (s : PackState) × (pack_workloads fixed best_fit insertion_sort
        (ok hosts)
        (ok (small ∷ large ∷ []))
      ≡ ok s)
    × IsPacking (small ∷ large ∷ []) (start hosts) s
pack_workloads-IsPacking_example =
    pack_workloads-IsPacking fixed fixed-IsIeee best_fit insertion_sort (insertion_sort-perm less)
      hosts (small ∷ large ∷ []) (omega arith) hosts-IsModest

abbrev machine : Node
machine = record {
  name = "m";
  labels = none;
  annotations = none;
  capacity = some (entry gpu_resource (pos 8) ∷ []);
  unschedulable = false;
}

gpu_node-conserves_example :
    let n = gpu_node machine (pos 8) (gpu_pod "p" running 3 (pos 0) ∷ []) in
    (n.total_gpus ≡ pos 8) × (n.available_gpus +ℤ pos 3 ≡ n.total_gpus)
unfolding gpu_node lookup
gpu_node-conserves_example =
    gpu_node-conserves machine 8 (gpu_pod "p" running 3 (pos 0) ∷ []) (omega arith) (omega arith)
      (omega arith)

-- One of the two nodes has more free GPUs than used ones.
abbrev half_free : List GpuNode
half_free =
    record (gpu_host "idle" 3) { total_gpus = pos 4 }
    ∷ record (gpu_host "busy" 1) { total_gpus = pos 4 }
    ∷ []

analyze_consolidation_opportunities-half_free_example :
    (analyze_consolidation_opportunities fixed (ok half_free)
      ≡ ok (record {
        total_nodes = length half_free;
        underutilized_nodes = length (keep is_half_free half_free);
        potential_savings = pos (free_gpus (keep is_half_free half_free));
        recommendations = keep is_half_free half_free;
      }))
    × (analyze_consolidation_opportunities fixed (err (message "down")) ≡ err (message "down"))
analyze_consolidation_opportunities-half_free_example =
    analyze_consolidation_opportunities-half_free fixed fixed-IsIeee half_free (message "down")
      (omega arith) (omega arith)
