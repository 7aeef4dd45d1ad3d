-- ===== src/Scheduler/Halves.antt =====
-- Which nodes the report on consolidation names, in whole numbers.
use gpuautoscaler.Prelude.{
  ℕ, ◌+◌, ◌-◌, ◌*◌, ◌^◌, ◌≤◌, ◌<◌, ◌≡◌, refl, sym, ap, ◌∙◌, ℤ, pos, negsuc, pos_part, neg_part,
  add64, sub64, Bool, Bool-cases, inl, inr, ltb, List, [], ◌∷◌, ◌++◌, length, keep, All, arith,
}
use mathlib.Core.List.{append_assoc, append-nil}
use gpuautoscaler.Prelude.Float.{Float64, IsIeee}
use gpuautoscaler.Prelude.Results.{Error, ok, err}
use gpuautoscaler.Scheduler.Model.{GpuNode}
use gpuautoscaler.Scheduler.Report.{
  ConsolidationReport, is_underutilized, add_node, report_nodes,
  analyze_consolidation_opportunities,
}

-- No fewer than no GPUs and no more than all are free, and there are some but not beyond 2 ^ 40.
abbrev pub IsCounted : GpuNode → Type 0
IsCounted n =
    (neg_part n.available_gpus ≡ 0)
    × (neg_part n.total_gpus ≡ 0)
    × (pos_part n.available_gpus ≤ pos_part n.total_gpus)
    × (0 < pos_part n.total_gpus)
    × (pos_part n.total_gpus ≤ 2 ^ 40)

-- More than half of the node's GPUs are free.
abbrev pub is_half_free : GpuNode → Bool
is_half_free n = ltb (pos_part n.total_gpus) (2 * pos_part n.available_gpus)

abbrev pub free_gpus : List GpuNode → ℕ
free_gpus [] = 0
free_gpus (n ∷ ns) = pos_part n.available_gpus + free_gpus ns

as_natural : (x : ℤ) → neg_part x ≡ 0 → x ≡ pos (pos_part x)
as_natural (pos n) h = refl
as_natural (negsuc n) h = absurd (omega (arith, h))

sub64-natural :
    (t a : ℤ)
    → neg_part t ≡ 0
    → neg_part a ≡ 0
    → pos_part a ≤ pos_part t
    → pos_part t ≤ 2 ^ 40
    → sub64 t a ≡ pos (pos_part t - pos_part a)
unfolding sub64
sub64-natural (pos t) (pos a) _ _ le small = ground arith
sub64-natural (negsuc t) a h _ _ _ = absurd (omega (arith, h))
sub64-natural (pos t) (negsuc a) _ h _ _ = absurd (omega (arith, h))

add64-natural :
    (s : ℕ) (a : ℤ)
    → neg_part a ≡ 0
    → s + pos_part a < 2 ^ 63
    → add64 (pos s) a ≡ pos (s + pos_part a)
unfolding add64
add64-natural s (pos a) _ small = ground arith
add64-natural s (negsuc a) h _ = absurd (omega (arith, h))

less_half : (t a : ℕ) → a ≤ t → ltb (2 * (t - a)) t ≡ ltb t (2 * a)
less_half t a le = ground arith

module _ (fl : Float64) (ieee : IsIeee fl) where
  is_underutilized-half : (n : GpuNode) → IsCounted n → is_underutilized fl n ≡ is_half_free n
  is_underutilized-half n (free, total, le, some_gpus, small) =
      let percentage = λ (d t : ℤ).
        fl.lt (fl.mul (fl.div (fl.of_int d) (fl.of_int t)) (fl.of_int (pos 100)))
          (fl.of_int (pos 50)) in
      ap (λ d. percentage d n.total_gpus)
        (sub64-natural n.total_gpus n.available_gpus total free le small)
      ∙ ap (percentage (pos (pos_part n.total_gpus - pos_part n.available_gpus)))
          (as_natural n.total_gpus total)
      ∙ ieee.below-half (pos_part n.total_gpus - pos_part n.available_gpus) (pos_part n.total_gpus)
          some_gpus (omega arith) small
      ∙ less_half (pos_part n.total_gpus) (pos_part n.available_gpus) le

  -- What the report is behind the nodes, from what it is before.
  record IsReported (ns : List GpuNode) (s : ℕ) (before after : ConsolidationReport fl)
      : Type 0 where
    total : after.total_nodes ≡ before.total_nodes
    count : after.underutilized_nodes ≡ before.underutilized_nodes + length (keep is_half_free ns)
    free : after.potential_savings ≡ pos (s + free_gpus (keep is_half_free ns))
    named : after.recommendations ≡ before.recommendations ++ keep is_half_free ns

  report_nodes-IsReported :
      (ns : List GpuNode) (s : ℕ) (r : ConsolidationReport fl)
      → r.potential_savings ≡ pos s
      → s + 2 ^ 40 * length ns < 2 ^ 63
      → All IsCounted ns
      → IsReported ns s r (report_nodes fl ns r)
  unfolding report_nodes
  report_nodes-IsReported [] s r start small _ = record {
    total = refl;
    count = omega arith;
    free = start ∙ ap pos (omega arith);
    named = sym (append-nil r.recommendations);
  }
  report_nodes-IsReported (n ∷ ns) s r start small (h, hs) = elim (Bool-cases (is_half_free n)) [
    | inr busy ↦
        let skip = is_underutilized-half n h ∙ busy in
        let ih = report_nodes-IsReported ns s r start (omega arith) hs in
        rw skip (record {
          total = ih.total;
          count = rw busy ih.count;
          free = rw busy ih.free;
          named = rw busy ih.named;
        })
    | inl half ↦
        let take = is_underutilized-half n h ∙ half in
        let (free, total, le, _, bound) = h in
        let sum = add64-natural s n.available_gpus free (omega arith) in
        let ih =
          report_nodes-IsReported ns (s + pos_part n.available_gpus) (add_node fl n r)
            (ap (λ x. add64 x n.available_gpus) start ∙ sum) (omega arith) hs in
        rw take (record {
          total = ih.total;
          count = rw half (omega (arith, ih.count));
          free = rw half (ih.free ∙ ap pos (omega arith));
          named =
              rw half (ih.named ∙ append_assoc r.recommendations (n ∷ []) (keep is_half_free ns));
        })
  ]

  -- The report on consolidation counts all nodes and names, in order, exactly those of whose GPUs more
  -- than half are free; the savings are the free GPUs of these. No node may have more free GPUs than it
  -- has or none at all, and there are at most 2 ^ 20 nodes. An error of the list is passed on.
  pub analyze_consolidation_opportunities-half_free :
      (nodes : List GpuNode) (e : Error)
      → All IsCounted nodes
      → length nodes ≤ 2 ^ 20
      → (analyze_consolidation_opportunities fl (ok nodes)
          ≡ ok (record {
            total_nodes = length nodes;
            underutilized_nodes = length (keep is_half_free nodes);
            potential_savings = pos (free_gpus (keep is_half_free nodes));
            recommendations = keep is_half_free nodes;
          }))
        × (analyze_consolidation_opportunities fl (err e) ≡ err e)
  unfolding analyze_consolidation_opportunities
  analyze_consolidation_opportunities-half_free nodes e counted few =
      let h =
        report_nodes-IsReported nodes 0
          (record {
            total_nodes = length nodes;
            underutilized_nodes = 0;
            potential_savings = pos 0;
            recommendations = [];
          })
          refl (omega arith) counted in
      (ground (arith, h.total, h.count, h.free, h.named), refl)
