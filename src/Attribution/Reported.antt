-- ===== src/Attribution/Reported.antt =====
-- What a reconciliation of an attribution reports when the database does not answer.
use gpuautoscaler.Prelude.{◌≡◌, refl, none, some, str_eq, List, if◌then◌else◌}
use gpuautoscaler.Prelude.Float.{Float64}
use gpuautoscaler.Prelude.Results.{Error, ok, err}
use gpuautoscaler.Kube.{Pod}
use gpuautoscaler.Attribution.Select.{CostAttributionSpec, get_matching_pods}
use gpuautoscaler.Attribution.Model.{CostDb, CostAttributionStatus, zero_cost}
use gpuautoscaler.Attribution.Savings.{calculate_savings}
use gpuautoscaler.Attribution.Status.{status_of, sum_pods, no_sums, update_attribution_status}
use gpuautoscaler.Attribution.Reconcile.{found, Outside, reconcile, requeue_or_fail}

module _ (fl : Float64) where
  -- The status that the same reconciliation would write without a database.
  abbrev pub without_db : Outside fl → Outside fl
  without_db o = record o { db = none }

  -- A database that fails every query.
  abbrev pub failing : Error → CostDb fl
  failing e = record {
    records = record { by_namespace = λ _ _ _. err e; by_team = λ _ _ _. err e };
    total_savings = λ _ _. err e;
  }

  -- The figures of two statuses that do not come from a database are the same.
  pub record SamePods (a b : CostAttributionStatus fl) : Type 0 where
    pub total_cost : a.total_cost ≡ b.total_cost
    pub hourly_cost : a.hourly_cost ≡ b.hourly_cost
    pub active_pods : a.active_pods ≡ b.active_pods
    pub active_gpus : a.active_gpus ≡ b.active_gpus
    pub gpu_hours : a.gpu_hours ≡ b.gpu_hours
    pub savings : a.savings ≡ b.savings

  -- A reconciliation with a database that fails every query succeeds as one without a database does: with
  -- the same figures of the pods and the same savings, none. But if the attribution names a namespace or
  -- a team, the costs of the day and of the month are 0 in place of the total.
  pub reconcile-failing :
      (o : Outside fl) (e : Error) (spec : CostAttributionSpec) (pods : List Pod)
      → o.db ≡ some (failing e)
      → get_matching_pods o.pods_api spec ≡ ok pods
      → (a b : CostAttributionStatus fl) × (reconcile fl o (found spec) ≡ record {
        requeue_after = requeue_or_fail fl o.update_answer;
        failure = o.update_answer;
        updated = some a;
      })
        × (reconcile fl (without_db o) (found spec) ≡ record {
          requeue_after = requeue_or_fail fl o.update_answer;
          failure = o.update_answer;
          updated = some b;
        })
        × SamePods a b
        × (b.daily_cost ≡ b.total_cost)
        × (b.monthly_cost ≡ b.total_cost)
        × (a.daily_cost ≡ a.monthly_cost)
        × (a.daily_cost ≡ (
            if str_eq spec.namespace ""
            then (if str_eq spec.team "" then a.total_cost else zero_cost fl)
            else zero_cost fl))
  unfolding reconcile update_attribution_status calculate_savings
  reconcile-failing o e spec pods db answer =
      let sums = sum_pods fl o.tracker o.now pods (no_sums fl) in
      rw (answer, db)
        (
          status_of fl (some (failing e)) o.calendar o.now spec sums,
          status_of fl none o.calendar o.now spec sums,
          refl,
          refl,
          record {
            total_cost = refl;
            hourly_cost = refl;
            active_pods = refl;
            active_gpus = refl;
            gpu_hours = refl;
            savings = refl;
          },
          refl,
          refl,
          refl,
          refl,
        )
