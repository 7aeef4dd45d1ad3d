-- ===== src/Scheduler/Candidates.antt =====
-- The candidates of `selectNode` are the nodes with room, each under its own index, in order.
use gpuautoscaler.Prelude.{
  ℕ, zero, suc, ◌+◌, ◌<◌, ◌≡◌, refl, ◌≤ℤ◌, leb_ℤ, some, List, [], ◌∷◌, arith, get_elem?, All,
  All-mono, Bool-cases, inl, inr, leb→le, le→leb, true,
}
use mathlib.Core.Option.{some-injective}
use mathlib.Core.Path.{subst}
use gpuautoscaler.Scheduler.Model.{GpuNode, GpuWorkload}
use gpuautoscaler.Scheduler.Select.{Candidate, candidates_from}

abbrev pub Fits : GpuWorkload → GpuNode → Type 0
Fits w n = w.gpu_request ≤ℤ n.available_gpus

-- A candidate of the nodes that start at index `k`.
pub record IsCandidate (k : ℕ) (nodes : List GpuNode) (w : GpuWorkload) (c : Candidate)
    : Type 0 where
  pub offset : ℕ
  pub index : c.0 ≡ k + offset
  pub stands : get_elem? nodes offset ≡ some c.1
  pub fits : Fits w c.1

candidate_later :
    (k : ℕ) (n : GpuNode) (ns : List GpuNode) (w : GpuWorkload) (c : Candidate)
    → IsCandidate (suc k) ns w c
    → IsCandidate k (n ∷ ns) w c
candidate_later k n ns w c h = record {
  offset = suc h.offset;
  index = omega (arith, h.index);
  stands = h.stands;
  fits = h.fits;
}

pub candidates_from_sound :
    (k : ℕ) (nodes : List GpuNode) (w : GpuWorkload)
    → All (IsCandidate k nodes w) (candidates_from k nodes w)
unfolding candidates_from
candidates_from_sound k [] w = tt
candidates_from_sound k (n ∷ ns) w =
    let rest = All-mono _ (candidate_later k n ns w) (candidates_from_sound (suc k) ns w) in
    elim (Bool-cases (leb_ℤ w.gpu_request n.available_gpus)) [
      | inl e ↦
          rw e
            (record { offset = 0; index = omega arith; stands = refl; fits = leb→le _ _ e }, rest)
      | inr e ↦ rw e rest
    ]

-- Every node with room is among the candidates, so what holds of them holds of it.
pub candidates_from-complete {κ} :
    (Q : Candidate → Type κ) (k : ℕ) (nodes : List GpuNode) (w : GpuWorkload) (j : ℕ) (m : GpuNode)
    → All Q (candidates_from k nodes w)
    → get_elem? nodes j ≡ some m
    → Fits w m
    → Q (k + j, m)
unfolding candidates_from
candidates_from-complete Q k [] w j m all at fits = cc
candidates_from-complete Q k (n ∷ ns) w zero m all at fits =
    let same : n ≡ m = some-injective _ _ at in
    let here : (k, m) ≡ (k + 0, m) = ground arith in
    let room : leb_ℤ w.gpu_request n.available_gpus ≡ true = rw same (le→leb _ _ fits) in
    subst Q here (subst (λ x. Q (k, x)) same (rw room at all).0)
candidates_from-complete Q k (n ∷ ns) w (suc j) m all at fits =
    let there : (suc k + j, m) ≡ (k + suc j, m) = ground arith in
    let later : All Q (candidates_from (suc k) ns w) =
      elim (Bool-cases (leb_ℤ w.gpu_request n.available_gpus)) [
        | inl e ↦ (rw e at all).1
        | inr e ↦ rw e at all
      ] in
    subst Q there (candidates_from-complete Q (suc k) ns w j m later at fits)

-- The indices of the candidates rise along the list.
abbrev pub Ascending : List Candidate → Type 0
Ascending [] = Unit
Ascending (c ∷ cs) = All (λ d. c.0 < d.0) cs × Ascending cs

pub candidates_from-Ascending :
    (k : ℕ) (nodes : List GpuNode) (w : GpuWorkload) → Ascending (candidates_from k nodes w)
unfolding candidates_from
candidates_from-Ascending k [] w = tt
candidates_from-Ascending k (n ∷ ns) w =
    let rest = candidates_from-Ascending (suc k) ns w in
    let above : All (λ d. k < d.0) (candidates_from (suc k) ns w) =
      All-mono _ (λ c h. omega (arith, h.index)) (candidates_from_sound (suc k) ns w) in
    elim (Bool-cases (leb_ℤ w.gpu_request n.available_gpus)) [
      | inl e ↦ rw e (above, rest)
      | inr e ↦ rw e rest
    ]
