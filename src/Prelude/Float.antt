-- ===== src/Prelude/Float.antt =====
-- Go's `float64`. The model takes the type and its operations as a parameter, so that no theorem rests
-- on more than the facts about IEEE 754 arithmetic that `IsIeee` names.
use Prim.Native.Nat.{ℕ, ◌+◌, ◌-◌, ◌*◌, ◌/◌, ◌^◌, ◌≤◌, ◌<◌}
use mathlib.Core.Path.{◌≡◌}
use mathlib.Core.Bool.{Bool, true}
use gpuautoscaler.Prelude.Tests.{leb, ltb, if◌then◌else◌, ◌==◌}
use gpuautoscaler.Prelude.Int.{ℤ, pos, pos_part, neg_part, ltb_ℤ}

pub record Float64 : Type 1 where
  pub F : Type 0
  -- The conversion `float64(n)` of an integer.
  pub of_int : ℤ → F
  -- `lit m k` is the constant m / 10 ^ k.
  pub lit : ℕ → ℕ → F
  pub add : F → F → F
  pub sub : F → F → F
  pub mul : F → F → F
  pub div : F → F → F
  pub lt : F → F → Bool
  pub le : F → F → Bool
  pub eq : F → F → Bool
  -- `math.Ceil`, `math.Abs`, `math.Sqrt`, `math.Min`, `math.Max` and the conversion `int(x)`.
  pub ceil : F → F
  pub abs : F → F
  pub sqrt : F → F
  pub fmin : F → F → F
  pub fmax : F → F → F
  pub trunc : F → ℤ

-- What the theorems use of IEEE 754 binary64 and Go's conversions. Integers up to 2 ^ 53 convert
-- exactly, and their absolute values are exact too; division by a small power of two is exact; the
-- constant 0.2 times a natural number is a number that truncates to a fifth of it; truncation commutes
-- with the minimum of a natural number and a number that is not NaN (a value is NaN when it is not `<=`
-- itself); a percentage of two natural numbers up to 2 ^ 40 is below 50 just if the first is less than
-- half the second, since rounding keeps the order and does not reach 50 from so far below.
pub record IsIeee (fl : Float64) : Type 0 where
  pub lt-of_int :
      (a b : ℤ)
      → pos_part a + neg_part a ≤ 2 ^ 53
      → pos_part b + neg_part b ≤ 2 ^ 53
      → fl.lt (fl.of_int a) (fl.of_int b) ≡ ltb_ℤ a b
  pub eq-abs :
      (a : ℤ) (n : ℕ)
      → pos_part a + neg_part a ≤ 2 ^ 53
      → n ≤ 2 ^ 53
      → fl.eq (fl.abs (fl.of_int a)) (fl.of_int (pos n)) ≡ (pos_part a + neg_part a == n)
  pub ceil-div :
      (a k : ℕ)
      → a ≤ 2 ^ 53
      → k ≤ 6
      → fl.trunc (fl.ceil (fl.div (fl.of_int (pos a)) (fl.of_int (pos (2 ^ k)))))
        ≡ pos ((a + (2 ^ k - 1)) / 2 ^ k)
  pub trunc-fifth :
      (a : ℕ) → a ≤ 2 ^ 52 → fl.trunc (fl.mul (fl.of_int (pos a)) (fl.lit 2 1)) ≡ pos (a / 5)
  pub le-fifth :
      (a : ℕ) → a ≤ 2 ^ 52 → let x = fl.mul (fl.of_int (pos a)) (fl.lit 2 1) in fl.le x x ≡ true
  pub trunc-fmin :
      (a t : ℕ) (y : fl.F)
      → a ≤ 2 ^ 52
      → t ≤ 2 ^ 52
      → fl.le y y ≡ true
      → fl.trunc y ≡ pos t
      → fl.trunc (fl.fmin (fl.of_int (pos a)) y) ≡ pos (if leb a t then a else t)
  pub below-half :
      (a b : ℕ)
      → 0 < b
      → a ≤ 2 ^ 40
      → b ≤ 2 ^ 40
      → fl.lt
          (fl.mul (fl.div (fl.of_int (pos a)) (fl.of_int (pos b))) (fl.of_int (pos 100)))
          (fl.of_int (pos 50))
        ≡ ltb (2 * a) b
