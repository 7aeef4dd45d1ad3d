-- ===== src/Gpu/Analyses.antt =====
-- The analyses that the GPU controller runs beside reconciliations. Their logs are the values that the
-- scheduler and the sharing managers answer with.
use gpuautoscaler.Prelude.{
  pos, ltb, Bool, true, false, Option, none, some, String, List, [], ◌∷◌, ◌++◌, if◌then◌else◌,
}
use gpuautoscaler.Prelude.Float.{Float64}
use gpuautoscaler.Prelude.Results.{Result, Error, ok, err, wrapped}
use gpuautoscaler.Kube.{Pod}
use gpuautoscaler.Scheduler.Model.{GpuNode, GpuWorkload, PackStrategy, best_fit}
use gpuautoscaler.Scheduler.Pack.{Sort, PackState, pack_workloads}
use gpuautoscaler.Scheduler.Report.{ConsolidationReport, analyze_consolidation_opportunities}
use gpuautoscaler.Sharing.Savings.{
  SavingsReport, estimate_mig_savings, estimate_mps_savings, estimate_time_slicing_savings,
}

pub record GpuController : Type 0 where
  pub strategy : PackStrategy
  pub enable_bin_packing : Bool
  pub enable_mig : Bool
  pub enable_mps : Bool
  pub enable_ts : Bool

abbrev pub new_gpu_controller : GpuController
new_gpu_controller = record {
  strategy = best_fit;
  enable_bin_packing = true;
  enable_mig = false;
  enable_mps = false;
  enable_ts = false;
}

-- What is logged of an answer, and the error that is returned.
abbrev pub Logged {ℓ} : Type ℓ → Type ℓ
Logged A = Option A × Option Error

abbrev pub logged_or_failed {ℓ} : {A : Type ℓ} → String → Result A → Logged A
logged_or_failed text (ok a) = (some a, none)
logged_or_failed text (err e) = (none, some (wrapped text e))

module _ (fl : Float64) where
  unfoldable pub run_bin_packing_analysis :
      GpuController → Sort → Result (List GpuNode) → Result (List GpuWorkload) → Logged PackState
  unfolding pack_workloads
  run_bin_packing_analysis c sort nodes pending =
      if c.enable_bin_packing
      then logged_or_failed "failed to pack workloads"
          (pack_workloads fl c.strategy sort nodes pending)
      else (none, none)

  -- A report is logged only if a node is underutilized.
  abbrev pub logged_report : Logged (ConsolidationReport fl) → Logged (ConsolidationReport fl)
  logged_report (none, e) = (none, e)
  logged_report (some r, e) = (if ltb 0 r.underutilized_nodes then some r else none, e)

  unfoldable pub run_consolidation_analysis :
      GpuController → Result (List GpuNode) → Logged (ConsolidationReport fl)
  unfolding analyze_consolidation_opportunities
  run_consolidation_analysis c nodes =
      if c.enable_bin_packing
      then logged_report (
          logged_or_failed "failed to analyze consolidation"
            (analyze_consolidation_opportunities fl nodes))
      else (none, none)

  -- A report is logged if the sharing is enabled, the report has no error and a pod is eligible.
  abbrev pub eligible_report : Bool → Result (SavingsReport fl) → List (SavingsReport fl)
  eligible_report false r = []
  eligible_report true (err e) = []
  eligible_report true (ok r) = if ltb 0 r.eligible_pods then r ∷ [] else []

  -- Its error is always nil.
  unfoldable pub estimate_sharing_savings :
      GpuController → Result (List Pod) → List (SavingsReport fl)
  unfolding estimate_mig_savings estimate_mps_savings estimate_time_slicing_savings
  estimate_sharing_savings c pods =
      eligible_report c.enable_mig (estimate_mig_savings fl pods)
      ++ (eligible_report c.enable_mps (estimate_mps_savings fl pods)
          ++ eligible_report c.enable_ts (estimate_time_slicing_savings fl (pos 4) pods))
