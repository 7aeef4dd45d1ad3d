-- ===== src/Database/Examples.antt =====
-- Tests of pkg/cost/timescaledb.go, and the theorems about it at a few rows.
use Prim.Native.Nat.{◌+◌, ◌/◌}
use gpuautoscaler.Prelude.{
  ◌*◌, negsuc, entry, ◌≡◌, refl, pos, true, none, some, String, List, [], ◌∷◌, ◌++◌, All, Any, ℤ,
  Entries,
}
use gpuautoscaler.Prelude.Fixed.{fixed}
use gpuautoscaler.Prelude.Results.{ok, api}
use gpuautoscaler.Prelude.Time.{Time}
use gpuautoscaler.Cost.Tracker.{PodCost}
use gpuautoscaler.Database.Costs.{
  CostRow, in_team, sum_cost, get_cost_by_namespace, get_cost_by_team, insert_cost_data_point,
}
use gpuautoscaler.Database.Latest.{IsCovered, IsDistinct, get_cost_by_team-latest}
use gpuautoscaler.Database.Repeated.{
  insert_all, running_totals, last_of, get_cost_by_namespace-repeated,
}
use gpuautoscaler.Database.Series.{get_hourly_cost_time_series, get_daily_cost_by_namespace}
use gpuautoscaler.Database.History.{
  BudgetRow, BudgetHistoryPoint, get_budget_history, update_budget_tracking,
}
use gpuautoscaler.Database.Recorded.{get_budget_history-update_budget_tracking}

abbrev dollars : ℤ → fixed.F
dollars n = fixed.of_int n

-- To the nearest microsecond.
abbrev microseconds : Time → Time
microseconds (pos n) = pos ((n + 500) / 1000 * 1000)
microseconds (negsuc n) = negsuc n

abbrev cost_at : Time → ℤ → PodCost fixed
cost_at now total = record {
  pod_name = "train";
  namespace = "ml";
  node = "a";
  gpu_type = "nvidia-l4";
  gpu_count = pos 1;
  capacity_type = "spot";
  sharing_mode = "exclusive";
  start_time = pos 0;
  hourly_rate = dollars (pos 60);
  total_cost = dollars total;
  last_updated = now;
  labels = none;
  experiment_id = "";
  team = "vision";
  project = "";
  cost_center = "";
}

abbrev no_json : Entries String → String
no_json m = "{}"

abbrev three_rows : List (CostRow fixed)
three_rows =
    insert_all fixed microseconds no_json
      (cost_at (pos 60_000) (pos 1)
        ∷ cost_at (pos 120_000) (pos 2)
        ∷ cost_at (pos 180_000) (pos 3)
        ∷ [])
      []

-- After three updates the pod has cost 3 dollars; by its namespace it has cost 1 + 2 + 3.
six_dollars :
    (get_cost_by_namespace fixed microseconds none three_rows "ml" (pos 0) (pos 200_000)
      ≡ ok (dollars (pos 6)))
    × (get_cost_by_team fixed microseconds none three_rows "vision" (pos 0) (pos 200_000)
        ≡ ok (dollars (pos 3)))
unfolding get_cost_by_namespace get_cost_by_team insert_cost_data_point
six_dollars = (refl, refl)

-- A bucket of 100 microseconds in place of an hour or a day.
abbrev bucket_of : Time → Time
bucket_of (pos n) = pos (n / 100_000 * 100_000)
bucket_of (negsuc n) = negsuc n

two_buckets :
    (get_hourly_cost_time_series fixed none (λ n. pos 0) bucket_of three_rows "ml" (pos 1)
      ≡ ok (
          record { time = pos 0; rate = dollars (pos 60); cost = dollars (pos 1) }
          ∷ record { time = pos 100_000; rate = dollars (pos 60); cost = dollars (pos 3) }
          ∷ []))
    × (get_daily_cost_by_namespace fixed none (λ n. pos 0) bucket_of three_rows (pos 1)
        ≡ ok (
            entry "ml" (
              record { day = pos 0; cost = dollars (pos 1); avg_gpus = dollars (pos 1) }
              ∷ record { day = pos 100_000; cost = dollars (pos 5); avg_gpus = dollars (pos 1) }
              ∷ [])
            ∷ []))
unfolding get_hourly_cost_time_series get_daily_cost_by_namespace insert_cost_data_point
two_buckets = (refl, refl)

get_cost_by_namespace-repeated_example :
    let c = cost_at (pos 60_000) (pos 1) in
    let cs = cost_at (pos 120_000) (pos 2) ∷ cost_at (pos 180_000) (pos 3) ∷ [] in
    let rows = insert_all fixed microseconds no_json (c ∷ cs) [] in
    (get_cost_by_namespace fixed microseconds none rows "ml" (pos 0) (pos 200_000)
      ≡ ok (running_totals fixed (c ∷ cs) (fixed.of_int (pos 0))))
    × (get_cost_by_team fixed microseconds none rows "vision" (pos 0) (pos 200_000)
        ≡ ok (fixed.add (fixed.of_int (pos 0)) (last_of fixed c cs).total_cost))
get_cost_by_namespace-repeated_example =
    get_cost_by_namespace-repeated fixed microseconds no_json "train" "ml" "vision" (pos 0)
      (pos 200_000) (cost_at (pos 60_000) (pos 1))
      (cost_at (pos 120_000) (pos 2) ∷ cost_at (pos 180_000) (pos 3) ∷ [])
      ((refl, refl, refl, refl), refl, ((refl, refl, refl, refl), refl, (refl, refl, refl, refl)))

get_cost_by_team-latest_example :
    (summed : List (CostRow fixed)) × (get_cost_by_team fixed microseconds none three_rows "vision"
        (pos 0)
        (pos 150_000)
      ≡ ok (sum_cost fixed summed (fixed.of_int (pos 0))))
    × All (λ r. Any (λ s. s ≡ r) three_rows) summed
    × All
        (λ r. in_team fixed "vision" (microseconds (pos 0)) (microseconds (pos 150_000)) r ≡ true)
        summed
    × IsDistinct fixed summed
    × All
        (λ r.
          in_team fixed "vision" (microseconds (pos 0)) (microseconds (pos 150_000)) r ≡ true
          → IsCovered fixed summed r)
        three_rows
get_cost_by_team-latest_example =
    get_cost_by_team-latest fixed microseconds three_rows "vision" (pos 0) (pos 150_000)

abbrev tracked_once : List (BudgetRow fixed)
tracked_once =
    (update_budget_tracking fixed microseconds none (pos 10_200) "b" "ml" "" (dollars (pos 100))
      (dollars (pos 50)) (dollars (pos 50)) "ok" []).0

-- The two updates are 100 nanoseconds apart.
get_budget_history-update_budget_tracking_example :
    let update = (λ (t : Time).
      update_budget_tracking fixed microseconds none t "b" "ml" ""
        (dollars (pos 100))
        (dollars (pos 90))
        (dollars (pos 90))
        "warning") in
    let after = (update (pos 20_300) tracked_once).0 in
    ((update (pos 20_300) tracked_once).1 ≡ none)
    × (old : List (BudgetHistoryPoint fixed)) × (get_budget_history fixed none
          (λ n. pos 0)
          tracked_once
          "b"
          (pos 7)
        ≡ ok old)
    × (get_budget_history fixed none (λ n. pos 0) after "b" (pos 7)
        ≡ ok (
            old
            ++ record {
              time = pos 20_000;
              limit = dollars (pos 100);
              spend = dollars (pos 90);
              percentage = dollars (pos 90);
              status = "warning";
            }
              ∷ []))
    × (update (pos 20_400) after
        ≡ (after, some (api "duplicate key value violates unique constraint")))
unfolding update_budget_tracking
get_budget_history-update_budget_tracking_example =
    get_budget_history-update_budget_tracking fixed microseconds tracked_once (pos 20_300)
      (pos 20_400) "b" "ml" "" "warning" (dollars (pos 100)) (dollars (pos 90)) (dollars (pos 90))
      (λ n. pos 0) "b" (pos 7) (refl, tt) refl refl
