-- ===== src/Predictive/Sampling.antt =====
-- The loop of `analyzePattern` over the days of the lookback.
use gpuautoscaler.Prelude.{
  ℕ, zero, suc, ◌+◌, ◌*◌, ◌%◌, ◌<◌, ◌≤◌, ◌≡◌, refl, sym, inl, inr, pos, ◌+ℤ◌, ◌≤ℤ◌, int_laws,
  +ℤ_parts, ltb_ℤ, true, false, Bool-cases, some, List, [], ◌∷◌, ◌++◌, length, length-append, arith,
  if◌then◌else◌, ◌==◌,
}
use gpuautoscaler.Prelude.Float.{Float64}
use gpuautoscaler.Prelude.Results.{Result, ok, err}
use gpuautoscaler.Prelude.Time.{Time}
use gpuautoscaler.Autoscaler.Model.{GpuMetrics}
use gpuautoscaler.Predictive.Model.{Calendar, IsRegular, day}
use gpuautoscaler.Predictive.Patterns.{Sample, sample_of, matched, collect}

-- How many of `n` days in a row, the first a `today`, are a `weekday`.
pub hits : ℕ → ℕ → ℕ → ℕ
hits zero today weekday = 0
hits (suc n) today weekday = (if today == weekday then 1 else 0) + hits n ((today + 1) % 7) weekday

-- A day of the week comes once at most in seven days.
pub hits_week : (today weekday : ℕ) → today < 7 → hits 7 today weekday ≤ 1
unfolding hits
hits_week zero weekday h = ground arith
hits_week (suc zero) weekday h = ground arith
hits_week (suc (suc zero)) weekday h = ground arith
hits_week (suc (suc (suc zero))) weekday h = ground arith
hits_week (suc (suc (suc (suc zero)))) weekday h = ground arith
hits_week (suc (suc (suc (suc (suc zero))))) weekday h = ground arith
hits_week (suc (suc (suc (suc (suc (suc zero)))))) weekday h = ground arith
hits_week (suc (suc (suc (suc (suc (suc (suc n))))))) weekday h = absurd (omega arith)

module _ (fl : Float64) (c : Calendar) (metrics_at : Time → Result (List (GpuMetrics fl))) where
  sample_of-le : (answer : Result (List (GpuMetrics fl))) → length (sample_of fl answer) ≤ 1
  sample_of-le (err e) = omega arith
  sample_of-le (ok []) = omega arith
  sample_of-le (ok (m ∷ ms)) = omega arith

  matched-le :
      (weekday hour_of_day : ℕ) (t : Time)
      → length (matched fl c metrics_at weekday hour_of_day t)
        ≤ (if c.weekday t == weekday then 1 else 0)
  matched-le weekday hour_of_day t = ground (arith, sample_of-le (metrics_at t))

  -- One round of the loop.
  collect_more :
      (fuel weekday hour_of_day : ℕ) (current last : Time) (rest : List (Sample fl))
      → ltb_ℤ current last ≡ true
      → collect fl c metrics_at fuel weekday hour_of_day (current +ℤ pos day) last ≡ some rest
      → collect fl c metrics_at (suc fuel) weekday hour_of_day current last
        ≡ some (matched fl c metrics_at weekday hour_of_day current ++ rest)
  unfolding collect
  collect_more fuel weekday hour_of_day current last rest more e = rw (more, e) refl

  collect_over :
      (fuel weekday hour_of_day : ℕ) (current last : Time)
      → ltb_ℤ current last ≡ false
      → collect fl c metrics_at (suc fuel) weekday hour_of_day current last ≡ some []
  unfolding collect
  collect_over fuel weekday hour_of_day current last over = rw over refl

  not_before : (current last : Time) → last ≤ℤ current +ℤ pos 0 → ltb_ℤ current last ≡ false
  not_before current last h = ground (arith, +ℤ_parts current (pos 0))

  -- `analyzePattern` ends: n + 1 rounds are enough for a range of n days. It finds at most one sample
  -- for every one of these days that is the weekday asked for.
  pub collect_total :
      IsRegular c
      → (n weekday hour_of_day : ℕ) (current last : Time) → last ≤ℤ current +ℤ pos (n * day)
      → (samples : List (Sample fl)) × (collect fl c metrics_at
            (suc n)
            weekday
            hour_of_day
            current
            last
          ≡ some samples)
        × (length samples ≤ hits n (c.weekday current) weekday)
  unfolding hits
  collect_total r zero weekday hour_of_day current last h =
      ([], collect_over 0 weekday hour_of_day current last (not_before current last h), omega arith)
  collect_total r (suc n) weekday hour_of_day current last h =
      let (rest, e, few) =
        collect_total r n weekday hour_of_day (current +ℤ pos day) last (omega int_laws) in
      elim (Bool-cases (ltb_ℤ current last)) [
        | inl more ↦ (
          matched fl c metrics_at weekday hour_of_day current ++ rest,
          collect_more (suc n) weekday hour_of_day current last rest more e,
          rw (length-append, sym (r.next_day current))
              (omega (arith, matched-le weekday hour_of_day current, few)),
        )
        | inr over ↦ ([], collect_over (suc n) weekday hour_of_day current last over, omega arith)
      ]
