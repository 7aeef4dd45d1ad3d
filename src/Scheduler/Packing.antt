-- ===== src/Scheduler/Packing.antt =====
-- `PackWorkloads` accounts for every workload and every GPU, and leaves out only what fits nowhere.
use mathlib.Core.List.{Perm, perm_middle, flatten}
use mathlib.Core.List.Perm
use mathlib.Core.Option.{some-injective}
use native.Mathlib.Bridge.{le_prop}
use gpuautoscaler.Prelude.{
  ℕ, zero, suc, ◌+◌, ◌^◌, ◌-◌, ◌≡◌, refl, inl, inr, pos, negsuc, ◌≤ℤ◌, ◌<ℤ◌, sub64-fits, InRange,
  int_laws, one_sided, none, some, List, [], ◌∷◌, ◌++◌, arith, All, All-mono, All-get, All-of_get,
  All-perm, get_elem?, Option-cases,
}
use gpuautoscaler.Prelude.Float.{Float64, IsIeee}
use gpuautoscaler.Prelude.Results.{ok}
use gpuautoscaler.Scheduler.Model.{GpuNode, GpuWorkload, PackStrategy}
use gpuautoscaler.Scheduler.Select.{select_node}
use gpuautoscaler.Scheduler.Pack.{
  Sort, less, alter, take_gpus, PackState, place, pack_step, pack_loop, start, pack_workloads,
}
use gpuautoscaler.Scheduler.Candidates.{Fits}
use gpuautoscaler.Scheduler.Choice.{IsOrderly}
use gpuautoscaler.Scheduler.Preference.{select_node-Chosen, select_node-none_iff}
use gpuautoscaler.Scheduler.Shares.{
  Asks, Filled, Filled-no_shares, Filled-alter, flatten-alter, placed, no_shares,
}

-- No node starts with more GPUs than the scan of best fit counts.
abbrev pub IsModest : GpuNode → Type 0
IsModest n = (n.available_gpus <ℤ pos 999_999) × (negsuc (2 ^ 53 - 1) ≤ℤ n.available_gpus)

-- The nodes of `s'` are those of `s`, each with a share of the workloads; a workload is in one share or
-- skipped; the counter went up by the number of workloads in the shares; and at the end no node has room
-- for a workload that was skipped.
pub record IsPacking (ws : List GpuWorkload) (s s' : PackState) : Type 0 where
  pub shares : List (List GpuWorkload)
  pub skipped : List GpuWorkload
  pub filled : Filled shares s.nodes s'.nodes
  pub accounted : Perm ws (flatten shares ++ skipped)
  pub counted : s'.result.consolidated_pods ≡ s.result.consolidated_pods + placed shares
  pub full : All (λ w. All (λ n. n.available_gpus <ℤ w.gpu_request) s'.nodes) skipped

modest_range : (n : GpuNode) → IsModest n → InRange n.available_gpus
modest_range n h = omega (arith, one_sided n.available_gpus)

alter-IsModest :
    (i : ℕ) (w : GpuWorkload) (ns : List GpuNode) (n : GpuNode)
    → Asks w
    → get_elem? ns i ≡ some n
    → Fits w n
    → All IsModest ns
    → All IsModest (alter i (take_gpus w) ns)
alter-IsModest i w [] n asks at fits h = tt
alter-IsModest zero w (x ∷ ns) n asks at fits (p, h) =
    let same = some-injective _ _ at in
    let room : Fits w x = rw same fits in
    let range = modest_range x p in
    let taken = sub64-fits x.available_gpus w.gpu_request (omega arith) room range in
    (rw taken (omega int_laws), h)
alter-IsModest (suc i) w (x ∷ ns) n asks at fits (p, h) =
    (p, alter-IsModest i w ns n asks at fits h)

-- What had no room before has none after.
Filled-no_room :
    (w : GpuWorkload) (shares : List (List GpuWorkload)) (ns ms : List GpuNode)
    → Filled shares ns ms
    → All (λ n. ¬ Fits w n) ns
    → All (λ m. m.available_gpus <ℤ w.gpu_request) ms
Filled-no_room w [] [] [] h all = tt
Filled-no_room w [] [] (m ∷ ms) h all = absurd h
Filled-no_room w [] (n ∷ ns) ms h all = absurd h
Filled-no_room w (s ∷ ss) [] ms h all = absurd h
Filled-no_room w (s ∷ ss) (n ∷ ns) [] h all = absurd h
Filled-no_room w (s ∷ ss) (n ∷ ns) (m ∷ ms) (g, h) (full, all) =
    (omega (arith, g.lower, full), Filled-no_room w ss ns ms h all)

nothing_placed : (ns : List GpuNode) → (flatten (no_shares ns) ≡ []) × (placed (no_shares ns) ≡ 0)
unfolding flatten
nothing_placed [] = (refl, refl)
nothing_placed (n ∷ ns) = let (gone, zeroed) = nothing_placed ns in (gone, omega (arith, zeroed))

module _ (fl : Float64) (laws : IsIeee fl) (strategy : PackStrategy) where
  orderly : (w : GpuWorkload) (ns : List GpuNode) → Asks w → All IsModest ns → IsOrderly ns w
  orderly w ns asks h = record {
    request = omega arith;
    countable = λ j m at. let p = All-get IsModest ns j m h at in omega (arith, p.0);
  }

  skip-IsPacking :
      (w : GpuWorkload) (ws : List GpuWorkload) (s s' : PackState)
      → Asks w
      → All IsModest s.nodes
      → select_node fl strategy s.nodes w ≡ none
      → IsPacking ws s s'
      → IsPacking (w ∷ ws) s s'
  skip-IsPacking w ws s s' asks h e p =
      let full =
        (select_node-none_iff fl laws s.nodes w (orderly w s.nodes asks h) asks
            (λ j m at. (All-get IsModest s.nodes j m h at).0) strategy).0
          e in
      record {
        shares = p.shares;
        skipped = w ∷ p.skipped;
        filled = p.filled;
        accounted =
            Perm.trans (Perm.cons w p.accounted)
              (Perm.symm (perm_middle (flatten p.shares) p.skipped));
        counted = p.counted;
        full = (
          Filled-no_room w p.shares s.nodes s'.nodes p.filled
              (All-of_get (λ n. ¬ Fits w n) s.nodes full),
          p.full,
        );
      }

  place-IsPacking :
      (w : GpuWorkload) (ws : List GpuWorkload) (i : ℕ) (n : GpuNode) (s s' : PackState)
      → Asks w
      → All IsModest s.nodes
      → get_elem? s.nodes i ≡ some n
      → Fits w n
      → IsPacking ws (place w i s) s'
      → IsPacking (w ∷ ws) s s'
  unfolding place
  place-IsPacking w ws i n s s' asks h at fits p =
      let ranges = All-mono s.nodes modest_range h in
      let (joined, count) = flatten-alter i w p.shares s.nodes s'.nodes n at p.filled in
      record {
        shares = alter i (λ share. w ∷ share) p.shares;
        skipped = p.skipped;
        filled = Filled-alter i w p.shares s.nodes s'.nodes n asks at fits ranges p.filled;
        accounted =
            Perm.trans (Perm.cons w p.accounted) (Perm.append_right p.skipped (Perm.symm joined));
        counted = omega (arith, p.counted, count);
        full = p.full;
      }

  pack_step-none :
      (w : GpuWorkload) (s : PackState)
      → select_node fl strategy s.nodes w ≡ none
      → pack_step fl strategy w s ≡ s
  unfolding pack_step
  pack_step-none w s e = rw (e, pack_step)

  pack_step-some :
      (w : GpuWorkload) (s : PackState) {i : ℕ}
      → select_node fl strategy s.nodes w ≡ some i
      → pack_step fl strategy w s ≡ place w i s
  unfolding pack_step
  pack_step-some w s e = rw (e, pack_step)

  -- The packing loop puts every workload that it is given on one node or skips it; ...
  pub pack_loop-IsPacking :
      (ws : List GpuWorkload) (s : PackState)
      → All Asks ws
      → All IsModest s.nodes
      → IsPacking ws s (pack_loop fl strategy ws s)
  unfolding pack_loop
  pack_loop-IsPacking [] s asks h =
      let (gone, zeroed) = nothing_placed s.nodes in
      record {
        shares = no_shares s.nodes;
        skipped = [];
        filled = Filled-no_shares s.nodes;
        accounted = rw gone (Perm.refl []);
        counted = omega (arith, zeroed);
        full = tt;
      }
  pack_loop-IsPacking (w ∷ ws) s (ask, asks) h =
      elim (Option-cases (select_node fl strategy s.nodes w)) [
        | inl e ↦
            rw (pack_step-none w s e)
              (skip-IsPacking w ws s _ ask h e (pack_loop-IsPacking ws s asks h))
        | inr (i, e) ↦
            let (n, at, fits, _) =
              select_node-Chosen fl laws s.nodes w (orderly w s.nodes ask h) strategy i e in
            rw (pack_step-some w s e) (
              place-IsPacking w ws i n s _ ask h at fits (
                pack_loop-IsPacking ws (place w i s) asks
                  (unfold place in alter-IsModest i w s.nodes n ask at fits h)))
      ]

-- If `sort.Slice` only reorders, every workload asks for a GPU and every node has fewer than 999999
-- free, then `PackWorkloads` succeeds, and its result accounts for everything: each node is the given
-- one with a share of the workloads, whose pods it got and whose requests were taken off its free GPUs
-- without going below zero; each workload is in exactly one share or skipped; `ConsolidatedPods` is the
-- number of those in shares; and no node has room at the end for a workload that was skipped.
pub pack_workloads-IsPacking :
    (fl : Float64) (laws : IsIeee fl) (strategy : PackStrategy) (sort : Sort)
    (reorders : (ws : List GpuWorkload) → Perm (sort less ws) ws) (nodes : List GpuNode)
    (ws : List GpuWorkload)
    → All Asks ws
    → All IsModest nodes
    → (s : PackState) × (pack_workloads fl strategy sort (ok nodes) (ok ws) ≡ ok s)
      × IsPacking ws (start nodes) s
unfolding pack_workloads
pack_workloads-IsPacking fl laws strategy sort reorders nodes ws asks h =
    let sorted = All-perm Asks (λ w. le_prop) (Perm.symm (reorders ws)) asks in
    let p = pack_loop-IsPacking fl laws strategy (sort less ws) (start nodes) sorted h in
    (
      pack_loop fl strategy (sort less ws) (start nodes),
      refl,
      record {
        shares = p.shares;
        skipped = p.skipped;
        filled = p.filled;
        accounted = Perm.trans (Perm.symm (reorders ws)) p.accounted;
        counted = p.counted;
        full = p.full;
      },
    )
