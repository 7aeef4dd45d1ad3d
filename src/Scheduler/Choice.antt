-- ===== src/Scheduler/Choice.antt =====
-- What `selectNode` chooses under each strategy, and when it chooses nothing.
use mathlib.Core.Option.{some-injective}
use mathlib.Core.Path.{subst}
use gpuautoscaler.Prelude.{
  ℕ, ◌+◌, ◌<◌, ◌≤◌, ◌^◌, ◌≡◌, sym, ◌∙◌, pos, ◌≤ℤ◌, ◌<ℤ◌, ◌-ℤ◌, sub64-eq, one_sided, int_laws,
  -ℤ_parts, none, some, List, [], ◌∷◌, arith, All, All-mono, get_elem?,
}
use gpuautoscaler.Prelude.Float.{Float64, IsIeee}
use gpuautoscaler.Scheduler.Model.{
  GpuNode, GpuWorkload, PackStrategy, best_fit, first_fit, worst_fit,
}
use gpuautoscaler.Scheduler.Select.{
  Candidate, candidates_from, best_fit_node, worst_fit_node, first_candidate,
}
use gpuautoscaler.Scheduler.Candidates.{
  Fits, IsCandidate, Ascending, candidates_from_sound, candidates_from-complete,
  candidates_from-Ascending,
}
use gpuautoscaler.Scheduler.Least.{
  arg_min, Outcome, kept, found, Beats, arg_min-Outcome, left_over, minus_available, IsSmall,
  best_fit_loop-arg_min, worst_fit_loop-arg_min,
}

-- `n` at index `i` is preferred to `m` at index `j`: less is left over, the index is lower, or more is
-- available; among equals the earlier node.
abbrev pub Prefers : PackStrategy → ℕ → GpuNode → ℕ → GpuNode → Type 0
Prefers first_fit i n j m = i ≤ j
Prefers worst_fit i n j m =
    (m.available_gpus ≤ℤ n.available_gpus) × (j < i → m.available_gpus <ℤ n.available_gpus)
Prefers _ i n j m =
    (n.available_gpus ≤ℤ m.available_gpus) × (j < i → n.available_gpus <ℤ m.available_gpus)

-- The request is not negative and no node has more GPUs free than `float64` can count.
pub record IsOrderly (nodes : List GpuNode) (w : GpuWorkload) : Type 0 where
  pub request : pos 0 ≤ℤ w.gpu_request
  pub countable :
      (j : ℕ) (m : GpuNode) → get_elem? nodes j ≡ some m → m.available_gpus ≤ℤ pos (2 ^ 53)

module _ (nodes : List GpuNode) (w : GpuWorkload) where
  abbrev pub Chosen : PackStrategy → ℕ → Type 0
  Chosen strategy i =
      (n : GpuNode) × (get_elem? nodes i ≡ some n)
      × Fits w n
      × ((j : ℕ) (m : GpuNode) → get_elem? nodes j ≡ some m → Fits w m → Prefers strategy i n j m)

  abbrev pub Holds : Candidate → Type 0
  Holds = IsCandidate 0 nodes w

  pub Holds-at : (c : Candidate) → Holds c → get_elem? nodes c.0 ≡ some c.1
  Holds-at c h =
      let same : h.offset ≡ c.0 = omega (arith, h.index) in
      subst (λ i. get_elem? nodes i ≡ some c.1) same h.stands

  -- A fact about every candidate is one about every node with room.
  pub at_nodes {κ} :
      (Q : ℕ → GpuNode → Type κ)
      → All (λ c. Q c.0 c.1) (candidates_from 0 nodes w)
      → (j : ℕ) (m : GpuNode) → get_elem? nodes j ≡ some m
      → Fits w m
      → Q j m
  at_nodes Q all j m at fits =
      let same : 0 + j ≡ j = omega arith in
      subst (λ k. Q k m) same (candidates_from-complete (λ c. Q c.0 c.1) 0 nodes w j m all at fits)

  module _ (h : IsOrderly nodes w) where
    pub left_over-eq :
        (n : GpuNode) (j : ℕ)
        → get_elem? nodes j ≡ some n
        → Fits w n
        → left_over w n ≡ n.available_gpus -ℤ w.gpu_request
    left_over-eq n j at fits =
        let top = h.countable j n at in
        let low = h.request in
        sub64-eq n.available_gpus w.gpu_request (
          omega (
            arith,
            one_sided (n.available_gpus -ℤ w.gpu_request),
            one_sided w.gpu_request,
            one_sided n.available_gpus,
            -ℤ_parts n.available_gpus w.gpu_request,
          ))

    left_over-IsSmall : (c : Candidate) → Holds c → IsSmall (left_over w c.1)
    left_over-IsSmall c k =
        let at = Holds-at c k in
        let top = h.countable c.0 c.1 at in
        let low = h.request in
        let room = k.fits in
        rw (left_over-eq c.1 c.0 at room) (
          omega (
            arith,
            one_sided (c.1.available_gpus -ℤ w.gpu_request),
            one_sided w.gpu_request,
            one_sided c.1.available_gpus,
            -ℤ_parts c.1.available_gpus w.gpu_request,
          ))

    -- Less left over is less available, since the request is the same.
    left_over_order :
        (i j : ℕ) (n m : GpuNode)
        → get_elem? nodes i ≡ some n
        → Fits w n
        → get_elem? nodes j ≡ some m
        → Fits w m
        → (left_over w n ≤ℤ left_over w m → n.available_gpus ≤ℤ m.available_gpus)
          × (left_over w n <ℤ left_over w m → n.available_gpus <ℤ m.available_gpus)
    left_over_order i j n m at_n fits_n at_m fits_m =
        rw (left_over-eq n i at_n fits_n, left_over-eq m j at_m fits_m)
          (λ le. omega int_laws, λ lt. omega int_laws)

    module _ (fl : Float64) (laws : IsIeee fl) where
      pub best_fit_node-arg_min :
          (cs : List Candidate)
          → All Holds cs
          → best_fit_node fl cs w ≡ arg_min (left_over w) cs none (pos 999_999)
      unfolding best_fit_node
      best_fit_node-arg_min cs hs =
          best_fit_loop-arg_min fl laws w cs none (pos 999_999) (All-mono cs left_over-IsSmall hs)
            (omega arith)

      pub best_fit-Chosen :
          (i : ℕ) → best_fit_node fl (candidates_from 0 nodes w) w ≡ some i → Chosen best_fit i
      best_fit-Chosen i e =
          let cs = candidates_from 0 nodes w in
          let hs = candidates_from_sound 0 nodes w in
          let same = best_fit_node-arg_min cs hs in
          go (
            arg_min-Outcome Holds (left_over w) cs none (pos 999_999) i hs
              (candidates_from-Ascending 0 nodes w) (sym same ∙ e))
        where
          go :
              Outcome Holds (left_over w) (candidates_from 0 nodes w) none (pos 999_999) i
              → Chosen best_fit i
          go (kept absent _) = cc
          go (found n p _ all) =
              let at_n = Holds-at (i, n) p in
              (
                n,
                at_n,
                p.fits,
                λ j m at_m fits_m.
                    let b = at_nodes (λ k x. Beats (left_over w) i n (k, x)) all j m at_m fits_m in
                    let order = left_over_order i j n m at_n p.fits at_m fits_m in
                    (order.0 b.least, λ before. order.1 (b.first before)),
              )

  pub worst_fit-Chosen :
      (i : ℕ) → worst_fit_node (candidates_from 0 nodes w) ≡ some i → Chosen worst_fit i
  unfolding worst_fit_node
  worst_fit-Chosen i e =
      let cs = candidates_from 0 nodes w in
      go (
        arg_min-Outcome Holds minus_available cs none (pos 0 -ℤ pos 0) i
          (candidates_from_sound 0 nodes w) (candidates_from-Ascending 0 nodes w)
          (sym (worst_fit_loop-arg_min cs none (pos 0)) ∙ e))
    where
      go :
          Outcome Holds minus_available (candidates_from 0 nodes w) none (pos 0 -ℤ pos 0) i
          → Chosen worst_fit i
      go (kept absent _) = cc
      go (found n p _ all) = (
        n,
        Holds-at (i, n) p,
        p.fits,
        λ j m at_m fits_m.
            let b = at_nodes (λ k x. Beats minus_available i n (k, x)) all j m at_m fits_m in
            (omega (int_laws, b.least), λ before. omega (int_laws, b.first before)),
      )

  pub first_candidate-Chosen :
      (i : ℕ) → first_candidate (candidates_from 0 nodes w) ≡ some i → Chosen first_fit i
  first_candidate-Chosen i e =
      go (candidates_from 0 nodes w) (candidates_from_sound 0 nodes w)
        (candidates_from-Ascending 0 nodes w) e (at_nodes (λ j m. i ≤ j))
    where
      go :
          (cs : List Candidate)
          → All Holds cs
          → Ascending cs
          → first_candidate cs ≡ some i
          → (All (λ c. i ≤ c.0) cs
              → (j : ℕ) (m : GpuNode) → get_elem? nodes j ≡ some m
              → Fits w m
              → i ≤ j)
          → Chosen first_fit i
      go [] _ _ none_left _ = cc
      go ((k, n) ∷ cs) (p, _) (above, _) first spread =
          let same : k ≡ i = some-injective _ _ first in
          (
            n,
            subst (λ x. get_elem? nodes x ≡ some n) same (Holds-at (k, n) p),
            p.fits,
            spread (omega arith, All-mono cs (λ c up. omega (arith, up)) above),
          )
