-- ===== src/Scheduler/Select.antt =====
-- `selectNode`, `bestFitNode` and `worstFitNode`. A `*GPUNode` is the node's index in the slice.
use gpuautoscaler.Prelude.{
  ℕ, suc, ℤ, pos, Option, none, some, List, [], ◌∷◌, if◌then◌else◌, leb_ℤ, ltb_ℤ, sub64,
}
use gpuautoscaler.Prelude.Float.{Float64}
use gpuautoscaler.Scheduler.Model.{
  GpuNode, GpuWorkload, PackStrategy, best_fit, first_fit, worst_fit, other,
}

abbrev pub Candidate : Type 0
Candidate = ℕ × GpuNode

-- The filter loop of `selectNode`; `i` is the index of the first node of the list.
unfoldable pub candidates_from : ℕ → List GpuNode → GpuWorkload → List Candidate
candidates_from i [] w = []
candidates_from i (n ∷ ns) w =
    let rest = candidates_from (suc i) ns w in
    if leb_ℤ w.gpu_request n.available_gpus then (i, n) ∷ rest else rest

module _ (fl : Float64) where
  abbrev pub waste_of : GpuWorkload → GpuNode → fl.F
  waste_of w n = fl.of_int (sub64 n.available_gpus w.gpu_request)

  unfoldable pub best_fit_loop : GpuWorkload → List Candidate → Option ℕ → fl.F → Option ℕ
  best_fit_loop w [] best min_waste = best
  best_fit_loop w ((i, n) ∷ rest) best min_waste =
      let better = fl.lt (waste_of w n) min_waste in
      best_fit_loop w rest (if better then some i else best)
        (if better then waste_of w n else min_waste)

  unfoldable pub best_fit_node : List Candidate → GpuWorkload → Option ℕ
  unfolding best_fit_loop
  best_fit_node nodes w = best_fit_loop w nodes none (fl.of_int (pos 999_999))

unfoldable pub worst_fit_loop : List Candidate → Option ℕ → ℤ → Option ℕ
worst_fit_loop [] worst max_available = worst
worst_fit_loop ((i, n) ∷ rest) worst max_available =
    let better = ltb_ℤ max_available n.available_gpus in
    worst_fit_loop rest (if better then some i else worst)
      (if better then n.available_gpus else max_available)

unfoldable pub worst_fit_node : List Candidate → Option ℕ
unfolding worst_fit_loop
worst_fit_node nodes = worst_fit_loop nodes none (pos 0)

abbrev pub first_candidate : List Candidate → Option ℕ
first_candidate [] = none
first_candidate ((i, n) ∷ rest) = some i

module _ (fl : Float64) where
  -- The early return and the `switch` of `selectNode`.
  abbrev pub pick : PackStrategy → List Candidate → GpuWorkload → Option ℕ
  pick strategy [] w = none
  pick best_fit cs w = best_fit_node fl cs w
  pick first_fit cs w = first_candidate cs
  pick worst_fit cs w = worst_fit_node cs
  pick (other _) cs w = best_fit_node fl cs w

  unfoldable pub select_node : PackStrategy → List GpuNode → GpuWorkload → Option ℕ
  unfolding candidates_from best_fit_node worst_fit_node
  select_node strategy nodes w = pick strategy (candidates_from 0 nodes w) w
