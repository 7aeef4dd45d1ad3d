-- ===== src/Scheduler/Preference.antt =====
-- `selectNode` as a whole: its choice under every strategy, and when there is none.
use gpuautoscaler.Prelude.{
  ℕ, ◌≡◌, ◌↔◌, refl, sym, inl, inr, ◌∙◌, pos, ◌≤ℤ◌, ◌<ℤ◌, ◌-ℤ◌, int_laws, none, some, List, [], ◌∷◌,
  All, String, get_elem?, Option-cases,
}
use gpuautoscaler.Prelude.Float.{Float64, IsIeee}
use gpuautoscaler.Scheduler.Model.{
  GpuNode, GpuWorkload, PackStrategy, best_fit, first_fit, worst_fit, other,
}
use gpuautoscaler.Scheduler.Select.{
  Candidate, candidates_from, best_fit_node, worst_fit_node, first_candidate, pick, select_node,
}
use gpuautoscaler.Scheduler.Candidates.{Fits, candidates_from_sound}
use gpuautoscaler.Scheduler.Least.{arg_min-none, left_over, minus_available, worst_fit_loop-arg_min}
use gpuautoscaler.Scheduler.Choice.{
  IsOrderly, Chosen, at_nodes, left_over-eq, best_fit_node-arg_min, best_fit-Chosen,
  worst_fit-Chosen, first_candidate-Chosen,
}

pick_best :
    (fl : Float64) (cs : List Candidate) (w : GpuWorkload)
    → pick fl best_fit cs w ≡ best_fit_node fl cs w
unfolding best_fit_node
pick_best fl [] w = refl
pick_best fl (c ∷ cs) w = refl

pick_other :
    (fl : Float64) (s : String) (cs : List Candidate) (w : GpuWorkload)
    → pick fl (other s) cs w ≡ best_fit_node fl cs w
unfolding best_fit_node
pick_other fl s [] w = refl
pick_other fl s (c ∷ cs) w = refl

pick_worst :
    (fl : Float64) (cs : List Candidate) (w : GpuWorkload)
    → pick fl worst_fit cs w ≡ worst_fit_node cs
unfolding worst_fit_node
pick_worst fl [] w = refl
pick_worst fl (c ∷ cs) w = refl

pick_first :
    (fl : Float64) (cs : List Candidate) (w : GpuWorkload)
    → pick fl first_fit cs w ≡ first_candidate cs
pick_first fl [] w = refl
pick_first fl (c ∷ cs) w = refl

module _ (fl : Float64) (laws : IsIeee fl) (nodes : List GpuNode) (w : GpuWorkload)
    (h : IsOrderly nodes w) where
  -- If the request is not negative and no node has more than 2 ^ 53 GPUs free, a node that `selectNode`
  -- returns has room for the workload, and no other node with room is preferred: best fit (and an unknown
  -- strategy) takes a node with the fewest free GPUs, worst fit one with the most, first fit the first
  -- one, and among equals the earliest wins. How many GPUs the nodes have in use plays no part.
  pub select_node-Chosen :
      (strategy : PackStrategy) (i : ℕ)
      → select_node fl strategy nodes w ≡ some i
      → Chosen nodes w strategy i
  unfolding select_node
  select_node-Chosen best_fit i e =
      best_fit-Chosen nodes w h fl laws i (sym (pick_best fl (candidates_from 0 nodes w) w) ∙ e)
  select_node-Chosen first_fit i e =
      first_candidate-Chosen nodes w i (sym (pick_first fl (candidates_from 0 nodes w) w) ∙ e)
  select_node-Chosen worst_fit i e =
      worst_fit-Chosen nodes w i (sym (pick_worst fl (candidates_from 0 nodes w) w) ∙ e)
  select_node-Chosen (other s) i e =
      best_fit-Chosen nodes w h fl laws i (sym (pick_other fl s (candidates_from 0 nodes w) w) ∙ e)

  abbrev pub NoRoom : Type 0
  NoRoom = (j : ℕ) (m : GpuNode) → get_elem? nodes j ≡ some m → ¬ Fits w m

  best_fit-none :
      ((j : ℕ) (m : GpuNode) → get_elem? nodes j ≡ some m → m.available_gpus <ℤ pos 999_999)
      → best_fit_node fl (candidates_from 0 nodes w) w ≡ none
      → NoRoom
  best_fit-none few e j m at fits =
      let cs = candidates_from 0 nodes w in
      let same = best_fit_node-arg_min nodes w h fl laws cs (candidates_from_sound 0 nodes w) in
      let all =
        (arg_min-none (λ _. Unit {0}) (left_over w) cs none (pos 999_999) (sym same ∙ e)).1 in
      let big = at_nodes nodes w (λ _ x. pos 999_999 ≤ℤ left_over w x) all j m at fits in
      let low = h.request in
      let top = few j m at in
      let big' = rw (left_over-eq nodes w h m j at fits) at big in omega int_laws

  worst_fit-none :
      pos 0 <ℤ w.gpu_request → worst_fit_node (candidates_from 0 nodes w) ≡ none → NoRoom
  unfolding worst_fit_node
  worst_fit-none asks e j m at fits =
      let cs = candidates_from 0 nodes w in
      let same = worst_fit_loop-arg_min cs none (pos 0) in
      let all =
        (arg_min-none (λ _. Unit {0}) minus_available cs none (pos 0 -ℤ pos 0) (sym same ∙ e)).1 in
      let big = at_nodes nodes w (λ _ x. pos 0 -ℤ pos 0 ≤ℤ minus_available x) all j m at fits in
      omega int_laws

  first_fit-none : first_candidate (candidates_from 0 nodes w) ≡ none → NoRoom
  first_fit-none e j m at fits =
      at_nodes nodes w (λ _ _. ⊥) (empty (candidates_from 0 nodes w) e) j m at fits
    where
      empty : (cs : List Candidate) → first_candidate cs ≡ none → All (λ _. ⊥) cs
      empty [] _ = tt
      empty (c ∷ cs) taken = cc

  module _ (asks : pos 0 <ℤ w.gpu_request)
      (few : (j : ℕ) (m : GpuNode)
        → get_elem? nodes j ≡ some m
        → m.available_gpus <ℤ pos 999_999) where
    select_node-none : (s : PackStrategy) → select_node fl s nodes w ≡ none → NoRoom
    unfolding select_node
    select_node-none best_fit e =
        best_fit-none few (sym (pick_best fl (candidates_from 0 nodes w) w) ∙ e)
    select_node-none first_fit e =
        first_fit-none (sym (pick_first fl (candidates_from 0 nodes w) w) ∙ e)
    select_node-none worst_fit e =
        worst_fit-none asks (sym (pick_worst fl (candidates_from 0 nodes w) w) ∙ e)
    select_node-none (other s) e =
        best_fit-none few (sym (pick_other fl s (candidates_from 0 nodes w) w) ∙ e)

    -- If the workload asks for at least one GPU and every node has fewer than 999999 free,
    -- `selectNode` returns nil exactly when no node has room, whatever the strategy.
    pub select_node-none_iff :
        (strategy : PackStrategy) → (select_node fl strategy nodes w ≡ none) ↔ NoRoom
    select_node-none_iff strategy = (
      select_node-none strategy,
      λ full. elim (Option-cases (select_node fl strategy nodes w)) [
        | inl e ↦ e
        | inr (i, e) ↦
            let (n, at, fits, _) = select_node-Chosen strategy i e in absurd (full i n at fits)
      ],
    )
