-- ===== src/Predictive/Similar.antt =====
-- What `findSimilarPatterns` takes for similar.
use gpuautoscaler.Prelude.{
  ℕ, zero, suc, ◌+◌, ◌-◌, ◌^◌, ◌<◌, ◌≤◌, ◌≡◌, refl, ap, ◌∙◌, pos, pos_part, neg_part, -ℤ_parts,
  one_sided, Bool, false, List, [], ◌∷◌, keep, All, arith, leb, if◌then◌else◌, ◌==◌,
}
use gpuautoscaler.Prelude.Float.{Float64, IsIeee}
use gpuautoscaler.Prelude.Fixed.{fixed}
use gpuautoscaler.Prelude.Time.{Time}
use gpuautoscaler.Predictive.Model.{Calendar, UtilizationPattern}
use gpuautoscaler.Predictive.Forecast.{
  minus, distance, day_similarity, hour_similarity, calculate_similarity, find_similar_patterns,
}

-- How far apart two days or two hours are.
abbrev pub gap : ℕ → ℕ → ℕ
gap a b = (a - b) + (b - a)

gap-minus : (a b : ℕ) → pos_part (minus a b) + neg_part (minus a b) ≡ gap a b
gap-minus a b = ground (arith, one_sided (minus a b), -ℤ_parts (pos a) (pos b))

gap-equal : (a b : ℕ) → (a == b) ≡ (gap a b == 0)
gap-equal a b = ground arith

module _ (fl : Float64) where
  -- The similarities by distance.
  abbrev pub day_weight : ℕ → fl.F
  day_weight zero = fl.of_int (pos 1)
  day_weight (suc zero) = fl.lit 5 1
  day_weight (suc (suc n)) = fl.of_int (pos 0)

  abbrev pub hour_weight : ℕ → fl.F
  hour_weight zero = fl.of_int (pos 1)
  hour_weight (suc zero) = fl.lit 7 1
  hour_weight (suc (suc zero)) = fl.lit 4 1
  hour_weight (suc (suc (suc n))) = fl.of_int (pos 0)

  -- The twelve sums of constants that `calculateSimilarity` can return, against the threshold. In
  -- binary64 too, 1.0 * 0.7 + 0.0 * 0.3 is the constant 0.7 and not above it.
  pub record IsWeighed : Type 0 where
    pub weighed :
        (days hours : ℕ)
        → fl.lt (fl.lit 7 1) (
            fl.add
              (fl.mul (day_weight days) (fl.lit 7 1))
              (fl.mul (hour_weight hours) (fl.lit 3 1)))
          ≡ (if days == 0 then leb hours 2 else false)

  -- A pattern of a day of the week and an hour of the day.
  abbrev pub IsOnCalendar : UtilizationPattern fl → Type 0
  IsOnCalendar p = (p.day_of_week < 7) × (p.hour_of_day < 24)

  -- A pattern of the same day at most two hours away.
  abbrev pub same_hours : ℕ → ℕ → UtilizationPattern fl → Bool
  same_hours weekday hour_of_day p =
      if p.day_of_week == weekday then leb (gap p.hour_of_day hour_of_day) 2 else false

  module _ (ieee : IsIeee fl) (w : IsWeighed) where
    distance-eq :
        (a b n : ℕ)
        → a < 24
        → b < 24
        → n ≤ 2
        → fl.eq (distance fl a b) (fl.of_int (pos n)) ≡ (gap a b == n)
    distance-eq a b n ha hb hn =
        let close : pos_part (minus a b) + neg_part (minus a b) ≤ 2 ^ 53 =
          omega (arith, gap-minus a b) in
        ieee.eq-abs (minus a b) n close (omega arith) ∙ ap (λ d. d == n) (gap-minus a b)

    day_steps :
        (n : ℕ)
        → (if n == 0 then fl.of_int (pos 1) else if n == 1 then fl.lit 5 1 else fl.of_int (pos 0))
          ≡ day_weight n
    day_steps zero = refl
    day_steps (suc zero) = refl
    day_steps (suc (suc n)) = ground arith

    day_similarity-weight : (a b : ℕ) → a < 7 → b < 7 → day_similarity fl a b ≡ day_weight (gap a b)
    day_similarity-weight a b ha hb =
        rw
          (
            gap-equal a b,
            distance-eq a b 1 (omega arith) (omega arith) (omega arith),
            day_steps (gap a b),
          )
          refl

    hour_steps :
        (n : ℕ)
        → (if n == 0
            then fl.of_int (pos 1)
            else if n == 1
            then fl.lit 7 1
            else if n == 2
            then fl.lit 4 1
            else fl.of_int (pos 0))
          ≡ hour_weight n
    hour_steps zero = refl
    hour_steps (suc zero) = refl
    hour_steps (suc (suc zero)) = refl
    hour_steps (suc (suc (suc n))) = ground arith

    hour_similarity-weight :
        (a b : ℕ) → a < 24 → b < 24 → hour_similarity fl (distance fl a b) ≡ hour_weight (gap a b)
    hour_similarity-weight a b ha hb =
        rw
          (
            distance-eq a b 0 ha hb (omega arith),
            distance-eq a b 1 ha hb (omega arith),
            distance-eq a b 2 ha hb (omega arith),
            hour_steps (gap a b),
          )
          refl

    module _ (c : Calendar) (target : Time) (day_fits : c.weekday target < 7)
        (hour_fits : c.hour_of target < 24) where
      combined : fl.F → fl.F → fl.F
      combined days hours = fl.add (fl.mul days (fl.lit 7 1)) (fl.mul hours (fl.lit 3 1))

      calculate_similarity-weights :
          (p : UtilizationPattern fl)
          → IsOnCalendar p
          → calculate_similarity fl p (c.weekday target) (c.hour_of target)
            ≡ combined
                (day_weight (gap p.day_of_week (c.weekday target)))
                (hour_weight (gap p.hour_of_day (c.hour_of target)))
      unfolding calculate_similarity combined
      calculate_similarity-weights p (d, h) =
          let days = day_similarity-weight p.day_of_week (c.weekday target) d day_fits in
          let hours = hour_similarity-weight p.hour_of_day (c.hour_of target) h hour_fits in
          ap (λ x. combined x (hour_similarity fl (distance fl p.hour_of_day (c.hour_of target))))
            days
          ∙ ap (combined (day_weight (gap p.day_of_week (c.weekday target)))) hours

      similar-same_hours :
          (p : UtilizationPattern fl)
          → IsOnCalendar p
          → fl.lt (fl.lit 7 1) (calculate_similarity fl p (c.weekday target) (c.hour_of target))
            ≡ same_hours (c.weekday target) (c.hour_of target) p
      unfolding combined
      similar-same_hours p fits =
          rw (calculate_similarity-weights p fits, gap-equal p.day_of_week (c.weekday target))
            (w.weighed (gap p.day_of_week (c.weekday target))
              (gap p.hour_of_day (c.hour_of target)))

      -- `findSimilarPatterns` takes exactly the patterns of the same day of the week whose hour is at
      -- most two away, in their order: the similarity of an adjacent day never counts.
      pub find_similar_patterns-keep :
          (patterns : List (UtilizationPattern fl))
          → All IsOnCalendar patterns
          → find_similar_patterns fl c target patterns
            ≡ keep (same_hours (c.weekday target) (c.hour_of target)) patterns
      unfolding find_similar_patterns
      find_similar_patterns-keep [] _ = refl
      find_similar_patterns-keep (p ∷ ps) (fits, rest) =
          rw (similar-same_hours p fits, find_similar_patterns-keep ps rest) refl

pub fixed-IsWeighed : IsWeighed fixed
fixed-IsWeighed = record { weighed = fixed_weighed }
  where
    fixed_weighed :
        (days hours : ℕ)
        → fixed.lt (fixed.lit 7 1) (
            fixed.add
              (fixed.mul (day_weight fixed days) (fixed.lit 7 1))
              (fixed.mul (hour_weight fixed hours) (fixed.lit 3 1)))
          ≡ (if days == 0 then leb hours 2 else false)
    fixed_weighed zero zero = refl
    fixed_weighed zero (suc zero) = refl
    fixed_weighed zero (suc (suc zero)) = refl
    fixed_weighed zero (suc (suc (suc n))) = ground arith
    fixed_weighed (suc zero) zero = refl
    fixed_weighed (suc zero) (suc zero) = refl
    fixed_weighed (suc zero) (suc (suc zero)) = refl
    fixed_weighed (suc zero) (suc (suc (suc n))) = refl
    fixed_weighed (suc (suc m)) zero = ground arith
    fixed_weighed (suc (suc m)) (suc zero) = ground arith
    fixed_weighed (suc (suc m)) (suc (suc zero)) = ground arith
    fixed_weighed (suc (suc m)) (suc (suc (suc n))) = ground arith
