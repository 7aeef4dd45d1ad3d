-- ===== src/Database/Repeated.antt =====
-- What the two queries make of a pod whose cost is inserted again and again, as the tracker does.
use gpuautoscaler.Prelude.{
  ◌≡◌, refl, sym, ap, ◌∙◌, pos, Bool, true, false, none, some, String, eq_iff, List, [], ◌∷◌, ◌++◌,
  map, All, All-mono, All-append, keep-all, leb_ℤ, ltb_ℤ, GoMap, Entries, arith,
}
use mathlib.Core.List.{append_assoc}
use gpuautoscaler.Prelude.Float.{Float64}
use gpuautoscaler.Prelude.Results.{ok}
use gpuautoscaler.Prelude.Time.{Time}
use gpuautoscaler.Cost.Tracker.{PodCost}
use gpuautoscaler.Database.Costs.{
  CostRow, row_of, labels_to_json, is_between, same_pod, upsert, insert_cost_data_point,
  in_namespace, in_team, newest, latest_rows, sum_cost, get_cost_by_namespace, get_cost_by_team,
}

module _ (fl : Float64) where
  abbrev pub running_totals : List (PodCost fl) → fl.F → fl.F
  running_totals [] total = total
  running_totals (c ∷ cs) total = running_totals cs (fl.add total c.total_cost)

  abbrev pub last_of : PodCost fl → List (PodCost fl) → PodCost fl
  last_of c [] = c
  last_of c (d ∷ ds) = last_of d ds

module _ (fl : Float64) (stored : Time → Time) where
  module _ (name namespace team : String) (from to : Time) where
    abbrev pub IsOf : PodCost fl → Type 0
    IsOf c =
        (c.pod_name ≡ name)
        × (c.namespace ≡ namespace)
        × (c.team ≡ team)
        × (is_between (stored from) (stored to) (stored c.last_updated) ≡ true)

    -- Costs of one pod at later and later times in the range.
    abbrev pub IsSeries : PodCost fl → List (PodCost fl) → Type 0
    IsSeries c [] = IsOf c
    IsSeries c (d ∷ ds) =
        IsOf c × (ltb_ℤ (stored c.last_updated) (stored d.last_updated) ≡ true) × IsSeries d ds

module _ (fl : Float64) (stored : Time → Time) (json : Entries String → String) where
  -- The costs inserted one after the other, by a connection that does not fail.
  abbrev pub insert_all : List (PodCost fl) → List (CostRow fl) → List (CostRow fl)
  insert_all [] rows = rows
  insert_all (c ∷ cs) rows =
      insert_all cs (insert_cost_data_point fl stored (λ m. ok (json m)) none c rows).0

  abbrev text_of : GoMap String → String
  text_of none = "{}"
  text_of (some m) = json m

  abbrev made : PodCost fl → CostRow fl
  made c = row_of fl stored c (text_of c.labels)

  labels_to_json-ok : (m : GoMap String) → labels_to_json (λ k. ok (json k)) m ≡ ok (text_of m)
  labels_to_json-ok none = refl
  labels_to_json-ok (some m) = refl

  upsert-later :
      (r : CostRow fl) (rows : List (CostRow fl))
      → All (λ s. ltb_ℤ s.time r.time ≡ true) rows
      → upsert fl r rows ≡ rows ++ r ∷ []
  unfolding upsert
  upsert-later r [] _ = refl
  upsert-later r (s ∷ ss) (h, hs) =
      let new : leb_ℤ r.time s.time ≡ false = ground (arith, h) in
      rw (new, upsert-later r ss hs) refl

  insert_later :
      (c : PodCost fl) (rows : List (CostRow fl))
      → All (λ s. ltb_ℤ s.time (stored c.last_updated) ≡ true) rows
      → (insert_cost_data_point fl stored (λ m. ok (json m)) none c rows).0 ≡ rows ++ made c ∷ []
  unfolding insert_cost_data_point
  insert_later c rows h = rw (labels_to_json-ok c.labels) (upsert-later (made c) rows h)

  module _ (name namespace team : String) (from to : Time) where
    IsSeries-head :
        (c : PodCost fl) (cs : List (PodCost fl))
        → IsSeries fl stored name namespace team from to c cs
        → IsOf fl stored name namespace team from to c
    IsSeries-head c [] h = h
    IsSeries-head c (d ∷ ds) h = h.0

    IsSeries-last :
        (c : PodCost fl) (cs : List (PodCost fl))
        → IsSeries fl stored name namespace team from to c cs
        → IsOf fl stored name namespace team from to (last_of fl c cs)
          × (leb_ℤ (stored c.last_updated) (stored (last_of fl c cs).last_updated) ≡ true)
    IsSeries-last c [] h = (h, ground arith)
    IsSeries-last c (d ∷ ds) (_, lt, h) =
        let (is, le) = IsSeries-last d ds h in (is, ground (arith, lt, le))

    insert_all-append :
        (c : PodCost fl) (cs : List (PodCost fl)) (rows : List (CostRow fl))
        → IsSeries fl stored name namespace team from to c cs
        → All (λ s. ltb_ℤ s.time (stored c.last_updated) ≡ true) rows
        → insert_all (c ∷ cs) rows ≡ rows ++ map made (c ∷ cs)
    insert_all-append c [] rows h early = insert_later c rows early
    insert_all-append c (d ∷ ds) rows (is, lt, h) early =
        ap (insert_all (d ∷ ds)) (insert_later c rows early)
        ∙ insert_all-append d ds (rows ++ made c ∷ []) h (
            All-append _ rows (made c ∷ []) (All-mono rows (λ s e. ground (arith, e, lt)) early)
              (lt, tt))
        ∙ append_assoc rows (made c ∷ []) (map made (d ∷ ds))

    kept_all :
        (p : CostRow fl → Bool)
        → ((c : PodCost fl) → IsOf fl stored name namespace team from to c → p (made c) ≡ true)
        → (c : PodCost fl) (cs : List (PodCost fl))
        → IsSeries fl stored name namespace team from to c cs
        → All (λ r. p r ≡ true) (map made (c ∷ cs))
    kept_all p f c [] h = (f c h, tt)
    kept_all p f c (d ∷ ds) (is, _, h) = (f c is, kept_all p f d ds h)

    of_namespace :
        (c : PodCost fl)
        → IsOf fl stored name namespace team from to c
        → in_namespace fl namespace (stored from) (stored to) (made c) ≡ true
    of_namespace c (_, ns, _, at) = rw ((eq_iff c.namespace namespace).1 ns) at

    of_team :
        (c : PodCost fl)
        → IsOf fl stored name namespace team from to c
        → in_team fl team (stored from) (stored to) (made c) ≡ true
    of_team c (_, _, t, at) = rw ((eq_iff c.team team).1 t) at

    same_pod-series :
        (c d : PodCost fl)
        → IsOf fl stored name namespace team from to c
        → IsOf fl stored name namespace team from to d
        → same_pod fl (made c) (made d) ≡ true
    same_pod-series c d (n, s, _, _) (n', s', _, _) =
        rw
          (
            (eq_iff c.pod_name d.pod_name).1 (n ∙ sym n'),
            (eq_iff c.namespace d.namespace).1 (s ∙ sym s'),
          )
          refl

    latest_rows-series :
        (c : PodCost fl) (cs : List (PodCost fl))
        → IsSeries fl stored name namespace team from to c cs
        → latest_rows fl (map made (c ∷ cs)) ≡ made (last_of fl c cs) ∷ []
    unfolding latest_rows newest
    latest_rows-series c [] h = refl
    latest_rows-series c (d ∷ ds) (is, lt, h) =
        let (ends, le) = IsSeries-last d ds h in
        let later : ltb_ℤ (stored (last_of fl d ds).last_updated) (stored c.last_updated) ≡ false =
          ground (arith, lt, le) in
        ap (newest fl (made c)) (latest_rows-series d ds h)
        ∙ rw (same_pod-series c (last_of fl d ds) is ends, later) refl

    sum_cost-made :
        (cs : List (PodCost fl)) (total : fl.F)
        → sum_cost fl (map made cs) total ≡ running_totals fl cs total
    unfolding sum_cost
    sum_cost-made [] total = refl
    sum_cost-made (c ∷ cs) total = sum_cost-made cs (fl.add total c.total_cost)

    -- When the costs of a pod are inserted in an empty table at times of the range of which
    -- the table keeps a later and later moment, the
    -- query for the namespace adds all the totals inserted, though each goes on from the one before, and
    -- the query for the team takes the last.
    pub get_cost_by_namespace-repeated :
        (c : PodCost fl) (cs : List (PodCost fl))
        → IsSeries fl stored name namespace team from to c cs
        → let rows = insert_all (c ∷ cs) [] in
          (get_cost_by_namespace fl stored none rows namespace from to
            ≡ ok (running_totals fl (c ∷ cs) (fl.of_int (pos 0))))
          × (get_cost_by_team fl stored none rows team from to
              ≡ ok (fl.add (fl.of_int (pos 0)) (last_of fl c cs).total_cost))
    unfolding get_cost_by_namespace get_cost_by_team
    get_cost_by_namespace-repeated c cs h =
        let rows = map made (c ∷ cs) in
        rw (insert_all-append c cs [] h tt) (
          rw
              (keep-all (in_namespace fl namespace (stored from) (stored to)) rows (
                kept_all (in_namespace fl namespace (stored from) (stored to)) of_namespace c cs h))
              (ap ok (sum_cost-made (c ∷ cs) (fl.of_int (pos 0)))),
          rw
              (
                keep-all (in_team fl team (stored from) (stored to)) rows
                    (kept_all (in_team fl team (stored from) (stored to)) of_team c cs h),
                latest_rows-series c cs h,
              )
              (unfold sum_cost in refl),
        )
