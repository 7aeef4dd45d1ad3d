-- ===== src/Scheduler/Report.antt =====
-- `AnalyzeConsolidationOpportunities` and `CalculateFragmentation`. The text of a recommendation is
-- formatted from the node, which stands for it; the time of a report is never set.
use gpuautoscaler.Prelude.{
  ℕ, suc, ℤ, pos, add64, sub64, ltb_ℤ, eqb_ℤ, Bool, List, [], ◌∷◌, ◌++◌, length, if◌then◌else◌,
}
use gpuautoscaler.Prelude.Float.{Float64}
use gpuautoscaler.Prelude.Results.{Result, ok, ◌>>=◌}
use gpuautoscaler.Scheduler.Model.{GpuNode}

module _ (fl : Float64) where
  pub record ConsolidationReport : Type 0 where
    pub total_nodes : ℕ
    pub underutilized_nodes : ℕ
    pub potential_savings : ℤ
    pub recommendations : List GpuNode

  abbrev pub utilization_pct : GpuNode → fl.F
  utilization_pct n =
      fl.mul (fl.div (fl.of_int (sub64 n.total_gpus n.available_gpus)) (fl.of_int n.total_gpus))
        (fl.of_int (pos 100))

  abbrev pub is_underutilized : GpuNode → Bool
  is_underutilized n = fl.lt (utilization_pct n) (fl.of_int (pos 50))

  abbrev pub add_node : GpuNode → ConsolidationReport → ConsolidationReport
  add_node n r = record r {
    underutilized_nodes = suc r.underutilized_nodes;
    potential_savings = add64 r.potential_savings n.available_gpus;
    recommendations = r.recommendations ++ n ∷ [];
  }

  unfoldable pub report_nodes : List GpuNode → ConsolidationReport → ConsolidationReport
  unfolding sub64 add64
  report_nodes [] r = r
  report_nodes (n ∷ ns) r = report_nodes ns (if is_underutilized n then add_node n r else r)

  unfoldable pub analyze_consolidation_opportunities :
      Result (List GpuNode) → Result ConsolidationReport
  unfolding report_nodes
  analyze_consolidation_opportunities gpu_nodes = do
    nodes ← gpu_nodes
    ok (
        report_nodes nodes (record {
          total_nodes = length nodes;
          underutilized_nodes = 0;
          potential_savings = pos 0;
          recommendations = [];
        }))

  pub record Totals : Type 0 where
    pub total_gpus : ℤ
    pub total_available : ℤ
    pub nodes_with_available : ℤ

  unfoldable pub add_totals : List GpuNode → Totals → Totals
  unfolding add64
  add_totals [] t = t
  add_totals (n ∷ ns) t = add_totals ns (record {
    total_gpus = add64 t.total_gpus n.total_gpus;
    total_available = add64 t.total_available n.available_gpus;
    nodes_with_available =
        (if ltb_ℤ (pos 0) n.available_gpus
          then add64 t.nodes_with_available (pos 1)
          else t.nodes_with_available);
  })

  abbrev fragmentation : ℕ → Totals → fl.F
  fragmentation count t =
      let average = fl.div (fl.of_int t.total_available) (fl.of_int (pos count)) in
      let score = fl.div (fl.of_int t.nodes_with_available) (fl.of_int (pos count)) in
      if eqb_ℤ t.total_available (pos 0)
      then fl.of_int (pos 0)
      else fl.mul score (fl.sub (fl.of_int (pos 1)) (fl.div average (fl.of_int t.total_gpus)))

  unfoldable pub calculate_fragmentation : List GpuNode → fl.F
  unfolding add_totals
  calculate_fragmentation [] = fl.of_int (pos 0)
  calculate_fragmentation (n ∷ ns) = fragmentation (length (n ∷ ns)) (
      add_totals (n ∷ ns)
        (record { total_gpus = pos 0; total_available = pos 0; nodes_with_available = pos 0 }))
