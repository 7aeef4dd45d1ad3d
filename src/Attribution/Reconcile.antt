-- ===== src/Attribution/Reconcile.antt =====
-- `Reconcile` of the attribution controller.
use gpuautoscaler.Prelude.{pos, Option, none, some}
use gpuautoscaler.Prelude.Float.{Float64}
use gpuautoscaler.Prelude.Results.{Result, Error, ok, err}
use gpuautoscaler.Prelude.Time.{Time, Duration, minute}
use gpuautoscaler.Budget.Spend.{PodsApi}
use gpuautoscaler.Cost.Tracker.{CostTracker}
use gpuautoscaler.Attribution.Select.{CostAttributionSpec}
use gpuautoscaler.Attribution.Model.{CostDb, Calendar, CostAttributionStatus}
use gpuautoscaler.Attribution.Status.{update_attribution_status}

-- What `Get` answers.
pub data Fetched : Type 0 where
  found : CostAttributionSpec → Fetched
  not_found : Fetched
  failed : Error → Fetched

module _ (fl : Float64) where
  -- The rest of what the outside answers.
  pub record Outside : Type 0 where
    pub pods_api : PodsApi
    pub tracker : CostTracker fl
    pub db : Option (CostDb fl)
    pub calendar : Calendar fl
    pub now : Time
    pub update_answer : Option Error

  -- When to be called again (0: not), the error, and the status given to `Update`.
  pub record Reconciled : Type 0 where
    pub requeue_after : Duration
    pub failure : Option Error
    pub updated : Option (CostAttributionStatus fl)

  abbrev pub requeue_or_fail : Option Error → Duration
  requeue_or_fail none = pos minute
  requeue_or_fail (some e) = pos 0

  abbrev pub with_status : Option Error → Result (CostAttributionStatus fl) → Reconciled
  with_status answer (err e) = record { requeue_after = pos 0; failure = some e; updated = none }
  with_status answer (ok status) = record {
    requeue_after = requeue_or_fail answer;
    failure = answer;
    updated = some status;
  }

  unfoldable pub reconcile : Outside → Fetched → Reconciled
  unfolding update_attribution_status
  reconcile o not_found = record { requeue_after = pos 0; failure = none; updated = none }
  reconcile o (failed e) = record { requeue_after = pos 0; failure = some e; updated = none }
  reconcile o (found spec) =
      with_status o.update_answer
        (update_attribution_status fl o.pods_api o.tracker o.db o.calendar o.now spec)
