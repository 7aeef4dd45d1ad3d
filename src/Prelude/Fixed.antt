-- ===== src/Prelude/Fixed.antt =====
-- Fixed-point numbers in millionths, with `none` for NaN: an instance of `Float64` that runs in tests
-- and meets the assumptions of `IsIeee`. It is not a model of binary64.
use gpuautoscaler.Prelude.Tests.{leb, ltb, if◌then◌else◌, ◌==◌, Bool-cases}
use gpuautoscaler.Prelude.Int.{ℤ, pos, negsuc, pos_part, neg_part, sub_ℕ, ltb_ℤ, leb_ℤ, eqb_ℤ}
use gpuautoscaler.Prelude.Float.{Float64, IsIeee}
use Prim.Native.Nat.{ℕ, zero, suc, ◌+◌, ◌-◌, ◌*◌, ◌/◌, ◌^◌, ◌≤◌, ◌<◌}
use mathlib.Core.Path.{◌≡◌}
use mathlib.Core.Logic.{◌↔◌, inl, inr}
use native.Mathlib.Nat.{div-lt_iff_lt-mul}
use mathlib.Core.Bool.{Bool, true, false}
use mathlib.Core.Option.{Option, none, some}
use native.Mathlib.Omega.{arith}

abbrev Micros : Type 0
Micros = Option ℤ

abbrev negate : ℕ → ℤ
negate n = sub_ℕ 0 n

abbrev scale : ℤ → ℤ
scale (pos n) = pos (n * 1_000_000)
scale (negsuc n) = negsuc (n * 1_000_000 + 999_999)

abbrev units : Micros → ℤ
units none = pos 0
units (some (pos n)) = pos (n / 1_000_000)
units (some (negsuc n)) = negate (suc n / 1_000_000)

abbrev round_up : Micros → Micros
round_up none = none
round_up (some (pos n)) = some (pos ((n + 999_999) / 1_000_000 * 1_000_000))
round_up (some (negsuc n)) = some (negate (suc n / 1_000_000 * 1_000_000))

abbrev sum : Micros → Micros → Micros
sum (some a) (some b) = some (sub_ℕ (pos_part a + pos_part b) (neg_part a + neg_part b))
sum _ _ = none

abbrev product : Micros → Micros → Micros
product (some (pos a)) (some (pos b)) = some (pos (a * b / 1_000_000))
product (some (pos a)) (some (negsuc b)) = some (negate (a * suc b / 1_000_000))
product (some (negsuc a)) (some (pos b)) = some (negate (suc a * b / 1_000_000))
product (some (negsuc a)) (some (negsuc b)) = some (pos (suc a * suc b / 1_000_000))
product _ _ = none

abbrev quotient : Micros → Micros → Micros
quotient (some (pos a)) (some (pos b)) = if b == 0 then none else some (pos (a * 1_000_000 / b))
quotient (some (pos a)) (some (negsuc b)) = some (negate (a * 1_000_000 / suc b))
quotient (some (negsuc a)) (some (pos b)) =
    if b == 0 then none else some (negate (suc a * 1_000_000 / b))
quotient (some (negsuc a)) (some (negsuc b)) = some (pos (suc a * 1_000_000 / suc b))
quotient _ _ = none

abbrev test : (ℤ → ℤ → Bool) → Micros → Micros → Bool
test f (some a) (some b) = f a b
test f _ _ = false

abbrev least : Micros → Micros → Micros
least (some a) (some b) = if leb_ℤ a b then some a else some b
least _ _ = none

abbrev greatest : Micros → Micros → Micros
greatest (some a) (some b) = if leb_ℤ a b then some b else some a
greatest _ _ = none

abbrev difference : Micros → Micros → Micros
difference (some a) (some b) = some (sub_ℕ (pos_part a + neg_part b) (neg_part a + pos_part b))
difference _ _ = none

abbrev absolute : Micros → Micros
absolute none = none
absolute (some a) = some (pos (pos_part a + neg_part a))

-- The root's bits, from the highest down.
unfoldable pub root_bits : ℕ → ℕ → ℕ → ℕ
root_bits zero n r = r
root_bits (suc k) n r = root_bits k n (if leb ((r + 2 ^ k) * (r + 2 ^ k)) n then r + 2 ^ k else r)

abbrev root : Micros → Micros
root (some (pos n)) = some (pos (root_bits 40 (n * 1_000_000) 0))
root _ = none

abbrev pub fixed : Float64
fixed = record {
  F = Micros;
  of_int = λ n. some (scale n);
  lit = λ m k. some (pos (m * 1_000_000 / 10 ^ k));
  add = sum;
  sub = difference;
  mul = product;
  div = quotient;
  lt = test ltb_ℤ;
  le = test leb_ℤ;
  eq = test eqb_ℤ;
  ceil = round_up;
  abs = absolute;
  sqrt = root;
  fmin = least;
  fmax = greatest;
  trunc = units;
}

ceil-quotient :
    (a k : ℕ)
    → k ≤ 6
    → units (round_up (quotient (some (pos (a * 1_000_000))) (some (pos (2 ^ k * 1_000_000)))))
      ≡ pos ((a + (2 ^ k - 1)) / 2 ^ k)
ceil-quotient a zero h = ground arith
ceil-quotient a (suc zero) h = ground arith
ceil-quotient a (suc (suc zero)) h = ground arith
ceil-quotient a (suc (suc (suc zero))) h = ground arith
ceil-quotient a (suc (suc (suc (suc zero)))) h = ground arith
ceil-quotient a (suc (suc (suc (suc (suc zero))))) h = ground arith
ceil-quotient a (suc (suc (suc (suc (suc (suc zero)))))) h = ground arith
ceil-quotient a (suc (suc (suc (suc (suc (suc (suc k))))))) h = absurd (omega arith)

scale-lt : (a b : ℤ) → ltb_ℤ (scale a) (scale b) ≡ ltb_ℤ a b
scale-lt (pos a) (pos b) = ground arith
scale-lt (pos a) (negsuc b) = ground arith
scale-lt (negsuc a) (pos b) = ground arith
scale-lt (negsuc a) (negsuc b) = ground arith

least_units :
    (a t : ℕ) (y : Micros)
    → test leb_ℤ y y ≡ true
    → units y ≡ pos t
    → units (least (some (pos (a * 1_000_000))) y) ≡ pos (if leb a t then a else t)
least_units a t none n e = ground arith
least_units a t (some (pos y)) n e = ground arith
least_units a t (some (negsuc y)) n e = ground arith

scale-eq-abs :
    (a : ℤ) (n : ℕ)
    → eqb_ℤ (pos (pos_part (scale a) + neg_part (scale a))) (pos (n * 1_000_000))
      ≡ (pos_part a + neg_part a == n)
scale-eq-abs (pos a) n = ground arith
scale-eq-abs (negsuc a) n = ground arith

below_scaled_half :
    (q a b : ℕ)
    → ((q < 500_000) ↔ (a * 1_000_000 * 1_000_000 < 500_000 * (b * 1_000_000)))
    → ltb_ℤ (pos (q * 100_000_000 / 1_000_000)) (pos 50_000_000) ≡ ltb (2 * a) b
below_scaled_half q a b h = elim (Bool-cases (ltb (2 * a) b)) [
  | inl less ↦ let p = h.1 (ground (arith, less)) in rw less (ground (arith, p))
  | inr more ↦
      let p : ¬ (q < 500_000) = λ l. let m = h.0 l in ground (arith, m, more) in
      rw more (ground (arith, p))
]

percentage :
    (a b : ℕ)
    → 0 < b
    → test ltb_ℤ
        (product
          (quotient (some (pos (a * 1_000_000))) (some (pos (b * 1_000_000))))
          (some (pos 100_000_000)))
        (some (pos 50_000_000))
      ≡ ltb (2 * a) b
percentage a b h =
    let e : (b * 1_000_000 == 0) ≡ false = ground (arith, h) in
    rw e (
      below_scaled_half (a * 1_000_000 * 1_000_000 / (b * 1_000_000)) a b
        (div-lt_iff_lt-mul (omega arith)))

pub fixed-IsIeee : IsIeee fixed
fixed-IsIeee = record {
  lt-of_int = λ a b _ _. scale-lt a b;
  eq-abs = λ a n _ _. scale-eq-abs a n;
  ceil-div = λ a k _ h. ceil-quotient a k h;
  trunc-fifth = λ a _. ground arith;
  le-fifth = λ a _. ground arith;
  trunc-fmin = λ a t y _ _ n e. least_units a t y n e;
  below-half = λ a b h _ _. percentage a b h;
}
