-- ===== src/Scheduler/Shares.antt =====
-- What packing does to one node and to all of them: each node is given a share of the workloads.
use mathlib.Core.Option.{some-injective}
use mathlib.Core.List.{Perm, perm_middle, append_assoc, append-nil, flatten}
use mathlib.Core.List.Perm
use gpuautoscaler.Prelude.{
  ℕ, zero, suc, ◌+◌, ◌≡◌, refl, sym, ◌⊎◌, inl, inr, ◌∙◌, ℤ, pos, pos_part, neg_part, ◌≤ℤ◌, ◌<ℤ◌,
  ◌-ℤ◌, ◌+ℤ◌, sub64-fits, ap, InRange, int_laws, some, List, [], ◌∷◌, ◌++◌, map, arith, All,
  get_elem?, length,
}
use gpuautoscaler.Scheduler.Model.{GpuNode, GpuWorkload}
use gpuautoscaler.Scheduler.Pack.{alter, take_gpus}
use gpuautoscaler.Scheduler.Candidates.{Fits}

abbrev pub requests : List GpuWorkload → ℤ
requests [] = pos 0
requests (w ∷ ws) = w.gpu_request +ℤ requests ws

abbrev pub Asks : GpuWorkload → Type 0
Asks w = pos 0 <ℤ w.gpu_request

-- `m` is the node `n` after it was given a share: it has the pods of the share behind its own, its free
-- GPUs fell by what the share asks for, and if the share is not empty they did not fall below zero.
pub record Grown (share : List GpuWorkload) (n m : GpuNode) : Type 0 where
  pub same_name : m.name ≡ n.name
  pub same_total : m.total_gpus ≡ n.total_gpus
  pub pods : m.allocated_pods ≡ n.allocated_pods ++ map (λ w. w.pod) share
  pub conserved : n.available_gpus ≡ m.available_gpus +ℤ requests share
  pub room : (share ≡ []) ⊎ (pos 0 ≤ℤ m.available_gpus)
  pub lower : m.available_gpus ≤ℤ n.available_gpus

-- One share for each node.
abbrev pub Filled : List (List GpuWorkload) → List GpuNode → List GpuNode → Type 0
Filled [] [] [] = Unit
Filled (share ∷ shares) (n ∷ ns) (m ∷ ms) = Grown share n m × Filled shares ns ms
Filled _ _ _ = ⊥

abbrev pub no_shares : List GpuNode → List (List GpuWorkload)
no_shares [] = []
no_shares (n ∷ ns) = [] ∷ no_shares ns

pub Filled-no_shares : (ns : List GpuNode) → Filled (no_shares ns) ns ns
Filled-no_shares [] = tt
Filled-no_shares (n ∷ ns) = (
  record {
    same_name = refl;
    same_total = refl;
    pods = sym (append-nil _);
    conserved = omega int_laws;
    room = inl refl;
    lower = omega arith;
  },
  Filled-no_shares ns,
)

Grown-cons :
    (w : GpuWorkload) (share : List GpuWorkload) (n m : GpuNode)
    → Asks w
    → Fits w n
    → InRange n.available_gpus
    → Grown share (take_gpus w n) m
    → Grown (w ∷ share) n m
Grown-cons w share n m asks fits range g =
    let taken = sub64-fits n.available_gpus w.gpu_request (omega arith) fits range in
    let kept : n.available_gpus -ℤ w.gpu_request ≡ m.available_gpus +ℤ requests share =
      sym taken ∙ g.conserved in
    let below : m.available_gpus ≤ℤ n.available_gpus -ℤ w.gpu_request = rw taken at g.lower in
    record {
      same_name = g.same_name;
      same_total = g.same_total;
      pods = g.pods ∙ append_assoc n.allocated_pods (w.pod ∷ []) (map (λ v. v.pod) share);
      conserved = omega (int_laws, ap pos_part kept, ap neg_part kept);
      room = inr (elim g.room [
        | inl e ↦
            let gone : requests share ≡ pos 0 = rw e refl in
            omega (int_laws, ap pos_part kept, ap neg_part kept, ap pos_part gone, ap neg_part gone)
        | inr r ↦ r
      ]);
      lower = omega int_laws;
    }

-- How many workloads the shares hold.
abbrev pub placed : List (List GpuWorkload) → ℕ
placed [] = 0
placed (share ∷ shares) = length share + placed shares

-- Filling goes on after a workload is put on a node.
pub Filled-alter :
    (i : ℕ) (w : GpuWorkload) (shares : List (List GpuWorkload)) (ns ms : List GpuNode)
    (n : GpuNode)
    → Asks w
    → get_elem? ns i ≡ some n
    → Fits w n
    → All (λ x. InRange x.available_gpus) ns
    → Filled shares (alter i (take_gpus w) ns) ms
    → Filled (alter i (λ share. w ∷ share) shares) ns ms
Filled-alter i w [] [] ms n asks at fits ok h = cc
Filled-alter i w (s ∷ ss) [] ms n asks at fits ok h = cc
Filled-alter zero w [] (x ∷ ns) ms n asks at fits ok h = absurd h
Filled-alter (suc i) w [] (x ∷ ns) ms n asks at fits ok h = absurd h
Filled-alter zero w (s ∷ ss) (x ∷ ns) [] n asks at fits ok h = absurd h
Filled-alter (suc i) w (s ∷ ss) (x ∷ ns) [] n asks at fits ok h = absurd h
Filled-alter zero w (s ∷ ss) (x ∷ ns) (m ∷ ms) n asks at fits (r, ok) (g, h) =
    let same = some-injective _ _ at in (Grown-cons w s x m asks (rw same fits) r g, h)
Filled-alter (suc i) w (s ∷ ss) (x ∷ ns) (m ∷ ms) n asks at fits (r, ok) (g, h) =
    (g, Filled-alter i w ss ns ms n asks at fits ok h)

-- The workload joins the shares.
pub flatten-alter :
    (i : ℕ) (w : GpuWorkload) (shares : List (List GpuWorkload)) (ns ms : List GpuNode)
    (n : GpuNode)
    → get_elem? ns i ≡ some n
    → Filled shares (alter i (take_gpus w) ns) ms
    → let shares' = alter i (λ share. w ∷ share) shares in
      Perm (flatten shares') (w ∷ flatten shares) × (placed shares' ≡ suc (placed shares))
unfolding flatten
flatten-alter i w [] [] ms n at h = cc
flatten-alter i w (s ∷ ss) [] ms n at h = cc
flatten-alter zero w [] (x ∷ ns) ms n at h = absurd h
flatten-alter (suc i) w [] (x ∷ ns) ms n at h = absurd h
flatten-alter zero w (s ∷ ss) (x ∷ ns) ms n at h = (Perm.rfl, omega arith)
flatten-alter (suc i) w (s ∷ ss) (x ∷ ns) [] n at h = absurd h
flatten-alter (suc i) w (s ∷ ss) (x ∷ ns) (m ∷ ms) n at (g, h) =
    let (later, count) = flatten-alter i w ss ns ms n at h in
    (Perm.trans (Perm.append_left s later) (perm_middle s (flatten ss)), omega (arith, count))
