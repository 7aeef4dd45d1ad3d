-- ===== src/Prelude/Time.antt =====
-- Go's `time.Time` as nanoseconds since the Unix epoch, and `time.Duration` as nanoseconds in an int64.
use Prim.Native.Nat.{ℕ, ◌-◌, ◌*◌, ◌^◌}
use mathlib.Core.Bool.{Bool}
use native.Mathlib.Omega.{arith}
use gpuautoscaler.Prelude.Tests.{if◌then◌else◌}
use gpuautoscaler.Prelude.Int.{ℤ, pos, negsuc, ◌-ℤ◌, ltb_ℤ, leb_ℤ, eqb_ℤ, ◌≤ℤ◌, int_laws}

abbrev pub Time : Type 0
Time = ℤ

abbrev pub Duration : Type 0
Duration = ℤ

-- January 1 of year 1, UTC: the value of a `time.Time` that nothing has set.
abbrev pub zero_time : Time
zero_time = negsuc (62_135_596_800_000_000_000 - 1)

abbrev pub is_zero : Time → Bool
is_zero t = eqb_ℤ t zero_time

abbrev pub second : ℕ
second = 1_000_000_000

abbrev pub minute : ℕ
minute = 60 * second

-- A difference beyond an int64 is cut off at its limits.
pub saturate : ℤ → Duration
saturate d =
    if leb_ℤ (pos (2 ^ 63)) d
    then pos (2 ^ 63 - 1)
    else if ltb_ℤ d (negsuc (2 ^ 63 - 1))
    then negsuc (2 ^ 63 - 1)
    else d

-- `t.Sub(u)`
unfoldable pub time_sub : Time → Time → Duration
unfolding ◌-ℤ◌ saturate
time_sub t u = saturate (t -ℤ u)

saturate-mono : (a b : ℤ) → a ≤ℤ b → saturate a ≤ℤ saturate b
unfolding saturate
saturate-mono a b h = ground arith

-- A later moment has seen less time pass since.
pub time_sub-anti : (now t u : Time) → t ≤ℤ u → time_sub now u ≤ℤ time_sub now t
time_sub-anti now t u h = unfold time_sub in saturate-mono (now -ℤ u) (now -ℤ t) (omega int_laws)
