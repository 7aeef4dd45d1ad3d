-- ===== src/Prelude/Sums.antt =====
-- Go's `sums[key] += x` on a map of floats, where a missing key reads as 0.
use Prim.Native.String.{String}
use mathlib.Core.Path.{◌≡◌, refl, ◌∙◌}
use mathlib.Core.Logic.{inl, inr}
use mathlib.Core.Option.{Option, none, some}
use text.Mathlib.Text.{◌==◌ as str_eq}
use text.Mathlib.TextEquality.{eq_iff}
use gpuautoscaler.Prelude.Tests.{if◌then◌else◌, Bool-cases}
use gpuautoscaler.Prelude.Int.{pos}
use gpuautoscaler.Prelude.Maps.{Entries, lookup, insert, lookup-insert}
use gpuautoscaler.Prelude.Float.{Float64}

module _ (fl : Float64) where
  abbrev pub number_or : Option fl.F → fl.F
  number_or none = fl.of_int (pos 0)
  number_or (some x) = x

  abbrev pub raise : String → fl.F → Entries fl.F → Entries fl.F
  raise key x sums = insert sums key (fl.add (number_or (lookup sums key)) x)

  pub lookup-raise :
      (key : String) (x : fl.F) (sums : Entries fl.F) (q : String)
      → lookup (raise key x sums) q
        ≡ (if str_eq q key then some (fl.add (number_or (lookup sums q)) x) else lookup sums q)
  lookup-raise key x sums q =
      lookup-insert sums key (fl.add (number_or (lookup sums key)) x) q
      ∙ elim (Bool-cases (str_eq q key)) [
        | inr other ↦ rw other refl
        | inl same ↦ rw (same, (eq_iff q key).0 same) refl
      ]
