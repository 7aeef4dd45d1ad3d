-- ===== src/Sharing/Savings.antt =====
-- The savings reports of pkg/sharing: `EstimateMIGSavings`, `EstimateMPSSavings` and
-- `EstimateTimeSlicingSavings`. Their time, which nothing sets, is left out.
use gpuautoscaler.Prelude.{
  ℕ, suc, ◌+◌, ◌*◌, ◌^◌, ltb, ℤ, pos, sub64, add64, eqb_ℤ, ltb_ℤ, Bool, true, false, Option, none,
  some, List, [], ◌∷◌, map_get, lookup, str_eq, if◌then◌else◌,
}
use gpuautoscaler.Prelude.Float.{Float64}
use gpuautoscaler.Prelude.Results.{Result, ok, ◌>>=◌}
use gpuautoscaler.Kube.{Pod, Container, memory_resource, text_at}
use gpuautoscaler.Sharing.Mig.{asked, plus_asked}
use gpuautoscaler.Sharing.Mps.{workload_type}

-- The containers that ask for GPUs, which the reports count as pods.
unfoldable pub asking_containers : List Container → ℕ
unfolding lookup
asking_containers [] = 0
asking_containers (c ∷ cs) = one_if (asked c) + asking_containers cs
  where
    one_if : Option ℤ → ℕ
    one_if none = 0
    one_if (some n) = 1

unfoldable pub gpu_request : ℤ → List Container → ℤ
unfolding lookup add64
gpu_request total [] = total
gpu_request total (c ∷ cs) = gpu_request (plus_asked total (asked c)) cs

unfoldable pub memory_request : ℤ → List Container → ℤ
unfolding lookup add64
memory_request total [] = total
memory_request total (c ∷ cs) =
    memory_request (plus_asked total (map_get memory_resource c.requests)) cs

-- Less than 20 GB of memory and one GPU.
abbrev pub is_small : Pod → Bool
is_small pod =
    if eqb_ℤ (gpu_request (pos 0) pod.containers) (pos 1)
    then ltb_ℤ (memory_request (pos 0) pod.containers) (pos (20 * 2 ^ 30))
    else false

abbrev shares : Pod → Bool
shares pod = str_eq (text_at "gpu-autoscaler.io/sharing" pod.annotations) "enabled"

abbrev pub is_inference : Pod → Bool
is_inference pod =
    if str_eq (text_at workload_type pod.labels) "inference" then true else shares pod

abbrev pub is_batch : Pod → Bool
is_batch pod =
    if str_eq (text_at workload_type pod.labels) "development"
    then true
    else if str_eq (text_at workload_type pod.labels) "batch"
    then true
    else shares pod

module _ (fl : Float64) where
  pub record SavingsReport : Type 0 where
    pub total_pods : ℕ
    pub eligible_pods : ℕ
    pub potential_saved_gpus : fl.F
    pub estimated_savings_pct : fl.F

  -- The loop over the pods, with a test and the part of a GPU that an eligible pod saves.
  unfoldable pub savings : (Pod → Bool) → fl.F → List Pod → SavingsReport → SavingsReport
  unfolding asking_containers gpu_request
  savings eligible part [] r = r
  savings eligible part (p ∷ ps) r =
      let counted = record r { total_pods = r.total_pods + asking_containers p.containers } in
      let saved = record counted {
        eligible_pods = suc r.eligible_pods;
        potential_saved_gpus = fl.add r.potential_saved_gpus part;
      } in
      savings eligible part ps (
        if eqb_ℤ (gpu_request (pos 0) p.containers) (pos 0)
        then counted
        else if eligible p
        then saved
        else counted)

  abbrev with_percentage : SavingsReport → SavingsReport
  with_percentage r =
      if ltb 0 r.total_pods
      then record r {
        estimated_savings_pct =
            fl.mul (fl.div r.potential_saved_gpus (fl.of_int (pos r.total_pods)))
              (fl.of_int (pos 100));
      }
      else r

  abbrev pub estimate : (Pod → Bool) → fl.F → Result (List Pod) → Result SavingsReport
  estimate eligible part listed = listed >>= λ pods. ok (
      with_percentage (
        savings eligible part pods (record {
          total_pods = 0;
          eligible_pods = 0;
          potential_saved_gpus = fl.of_int (pos 0);
          estimated_savings_pct = fl.of_int (pos 0);
        })))

  unfoldable pub estimate_mig_savings : Result (List Pod) → Result SavingsReport
  unfolding savings memory_request lookup
  estimate_mig_savings listed = estimate is_small (fl.lit 857 3) listed

  unfoldable pub estimate_mps_savings : Result (List Pod) → Result SavingsReport
  unfolding savings lookup
  estimate_mps_savings listed = estimate is_inference (fl.lit 75 2) listed

  unfoldable pub estimate_time_slicing_savings : ℤ → Result (List Pod) → Result SavingsReport
  unfolding savings lookup sub64
  estimate_time_slicing_savings replicas listed =
      estimate is_batch (fl.div (fl.of_int (sub64 replicas (pos 1))) (fl.of_int replicas)) listed
