-- ===== src/Scheduler/Pack.antt =====
-- `PackWorkloads`: the order of the workloads and the packing loop, which updates the chosen node in
-- place. `sort.Slice` is an argument: it is given the comparison and the workloads.
use gpuautoscaler.Prelude.{
  ℕ, zero, suc, ◌+◌, String, Bool, not, Option, none, some, List, [], ◌∷◌, ◌++◌, if◌then◌else◌,
  ltb_ℤ, eqb_ℤ, sub64, insert, get_elem?,
}
use gpuautoscaler.Prelude.Float.{Float64}
use gpuautoscaler.Prelude.Results.{Result, ok, ◌>>=◌, wrap_error}
use gpuautoscaler.Scheduler.Model.{GpuNode, GpuWorkload, PackStrategy, PackingResult}
use gpuautoscaler.Scheduler.Select.{select_node}

-- The comparison that `PackWorkloads` gives to `sort.Slice`.
unfoldable pub less : GpuWorkload → GpuWorkload → Bool
less a b =
    if not (eqb_ℤ a.priority b.priority)
    then ltb_ℤ b.priority a.priority
    else ltb_ℤ b.gpu_request a.gpu_request

abbrev pub Sort : Type 0
Sort = (GpuWorkload → GpuWorkload → Bool) → List GpuWorkload → List GpuWorkload

module _ {ℓ} {A : Type ℓ} where
  -- An update through the pointer at an index.
  abbrev pub alter : ℕ → (A → A) → List A → List A
  alter i f [] = []
  alter zero f (x ∷ xs) = f x ∷ xs
  alter (suc i) f (x ∷ xs) = x ∷ alter i f xs

-- The nodes, and the result so far.
pub record PackState : Type 0 where
  pub nodes : List GpuNode
  pub result : PackingResult

abbrev pub take_gpus : GpuWorkload → GpuNode → GpuNode
take_gpus w n = record n {
  available_gpus = sub64 n.available_gpus w.gpu_request;
  allocated_pods = n.allocated_pods ++ w.pod ∷ [];
}

abbrev name_at : Option GpuNode → String
name_at none = ""
name_at (some n) = n.name

-- The body of the `if node != nil`.
unfoldable pub place : GpuWorkload → ℕ → PackState → PackState
place w i s = record {
  nodes = alter i (take_gpus w) s.nodes;
  result = record {
    placements = insert s.result.placements w.pod.name (name_at (get_elem? s.nodes i));
    consolidated_pods = s.result.consolidated_pods + 1;
  };
}

abbrev pub start : List GpuNode → PackState
start nodes = record { nodes = nodes; result = record { placements = []; consolidated_pods = 0 } }

module _ (fl : Float64) (strategy : PackStrategy) where
  unfoldable pub pack_step : GpuWorkload → PackState → PackState
  unfolding place
  pack_step w s = elim (select_node fl strategy s.nodes w) [ none ↦ s | some i ↦ place w i s ]

  unfoldable pub pack_loop : List GpuWorkload → PackState → PackState
  pack_loop [] s = s
  pack_loop (w ∷ ws) s = pack_loop ws (pack_step w s)

  -- The nodes after the call are kept beside the result, since the caller's pointers see them.
  unfoldable pub pack_workloads :
      Sort → Result (List GpuNode) → Result (List GpuWorkload) → Result PackState
  unfolding pack_loop pack_step
  pack_workloads sort gpu_nodes pending = do
    nodes ← wrap_error "failed to get GPU nodes" gpu_nodes
    workloads ← wrap_error "failed to get pending workloads" pending
    ok (pack_loop (sort less workloads) (start nodes))
