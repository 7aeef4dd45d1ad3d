-- ===== src/Roi/Agreement.antt =====
-- The savings of the report and those of a cost attribution, from the same database.
use gpuautoscaler.Prelude.{◌≡◌, refl, Bool-cases, inl, inr, some, String, str_eq, [], ◌∷◌, Entries}
use gpuautoscaler.Prelude.Float.{Float64}
use gpuautoscaler.Prelude.Results.{Result, ok, err}
use gpuautoscaler.Prelude.Time.{Time}
use gpuautoscaler.Budget.Spend.{Records}
use gpuautoscaler.Cost.Tracker.{CostTracker}
use gpuautoscaler.Attribution.Model.{Calendar, SavingsData}
use gpuautoscaler.Attribution.Savings.{
  savings_of, no_savings, add_saving, add_savings, calculate_savings,
}
use gpuautoscaler.Roi.Model.{ReportPeriod, SavingsBreakdown, no_breakdown}
use gpuautoscaler.Roi.Savings.{
  SavingsDb, breakdown_of, set_saving, set_savings, calculate_total_savings,
}

module _ (fl : Float64) where
  pub record Agrees (s : SavingsData fl) (b : SavingsBreakdown fl) : Type 0 where
    pub spot : s.spot_savings ≡ b.spot_instance_savings
    pub sharing : s.sharing_savings ≡ b.gpu_sharing_savings
    pub autoscaling : s.autoscaling_savings ≡ b.autoscaling_savings
    pub waste : s.waste_eliminated ≡ b.waste_elimination_savings

  add_saving-Agrees :
      (kind : String) (amount : fl.F) (s : SavingsData fl) (b : SavingsBreakdown fl)
      → Agrees s b
      → Agrees (add_saving fl kind amount s) (set_saving fl kind amount b)
  add_saving-Agrees kind amount s b h = elim (Bool-cases (str_eq kind "spot")) [
    | inl p ↦
        rw p (record {
          spot = refl;
          sharing = h.sharing;
          autoscaling = h.autoscaling;
          waste = h.waste;
        })
    | inr p ↦ elim (Bool-cases (str_eq kind "sharing")) [
      | inl q ↦
          rw (p, q)
            (record { spot = h.spot; sharing = refl; autoscaling = h.autoscaling; waste = h.waste })
      | inr q ↦ elim (Bool-cases (str_eq kind "autoscaling")) [
        | inl a ↦
            rw (p, q, a)
              (record { spot = h.spot; sharing = h.sharing; autoscaling = refl; waste = h.waste })
        | inr a ↦ elim (Bool-cases (str_eq kind "waste")) [
          | inl w ↦
              rw (p, q, a, w)
                (record {
                  spot = h.spot;
                  sharing = h.sharing;
                  autoscaling = h.autoscaling;
                  waste = refl;
                })
          | inr w ↦ elim (Bool-cases (str_eq kind "idle")) [
            | inl i ↦
                rw (p, q, a, w, i)
                  (record {
                    spot = h.spot;
                    sharing = h.sharing;
                    autoscaling = h.autoscaling;
                    waste = h.waste;
                  })
            | inr i ↦
                rw (p, q, a, w, i)
                  (record {
                    spot = h.spot;
                    sharing = h.sharing;
                    autoscaling = h.autoscaling;
                    waste = h.waste;
                  })
          ]
        ]
      ]
    ]
  ]

  add_savings-Agrees :
      (es : Entries fl.F) (s : SavingsData fl) (b : SavingsBreakdown fl)
      → Agrees s b
      → Agrees (add_savings fl es s) (set_savings fl es b)
  unfolding add_savings set_savings
  add_savings-Agrees [] s b h = h
  add_savings-Agrees (e ∷ es) s b h =
      add_savings-Agrees es (add_saving fl e.key e.value s) (set_saving fl e.key e.value b)
        (add_saving-Agrees e.key e.value s b h)

  -- Both answers are the same error, or agree in the savings by spot nodes, sharing, autoscaling and the
  -- elimination of waste.
  abbrev pub SameSavings : Result (SavingsData fl) → Result (SavingsBreakdown fl) → Type 0
  SameSavings (ok s) (ok b) = Agrees s b
  SameSavings (err e) (err f) = e ≡ f
  SameSavings (ok s) (err f) = ⊥
  SameSavings (err e) (ok b) = ⊥

  -- From one database a cost attribution, whatever it selects, and a report on the same thirty days have
  -- the same savings of each of the four types that both have, or fail with the same error.
  pub calculate_savings-calculate_total_savings :
      (db : SavingsDb fl) (records : Records fl) (calendar : Calendar fl) (t : CostTracker fl)
      (now : Time) (current : fl.F) (period : ReportPeriod)
      → period.start_date ≡ calendar.days_before 30 now
      → period.end_date ≡ now
      → SameSavings
          (calculate_savings fl
            (some (record { records = records; total_savings = db }))
            calendar
            now
            current)
          (calculate_total_savings fl (some db) t period)
  unfolding calculate_savings calculate_total_savings
  calculate_savings-calculate_total_savings db records calendar t now current period starts ends =
      rw (starts, ends) (same_of current (db (calendar.days_before 30 now) now))
    where
      same_of :
          (current : fl.F) (answer : Result (Entries fl.F))
          → SameSavings (savings_of fl current answer) (breakdown_of fl answer)
      same_of current (err e) = refl
      same_of current (ok es) =
          let h =
            add_savings-Agrees es (no_savings fl) (no_breakdown fl)
              (record { spot = refl; sharing = refl; autoscaling = refl; waste = refl }) in
          record {
            spot = h.spot;
            sharing = h.sharing;
            autoscaling = h.autoscaling;
            waste = h.waste;
          }
