-- ===== src/Scheduler/Least.antt =====
-- Both scans of `selectNode` look for the first candidate with the least key: the GPUs that it would
-- leave over, or the GPUs that it has, counted negatively.
use mathlib.Core.Option.{some-injective}
use mathlib.Core.Path.{subst}
use gpuautoscaler.Prelude.{
  ℕ, ◌+◌, ◌<◌, ◌≤◌, ◌^◌, ◌≡◌, refl, inl, inr, ℤ, pos, pos_part, neg_part, ◌≤ℤ◌, ◌<ℤ◌, ◌-ℤ◌, ltb_ℤ,
  sub64, Option, none, some, List, [], ◌∷◌, arith, All, All-zip, if◌then◌else◌, Bool-cases,
}
use gpuautoscaler.Prelude.Float.{Float64, IsIeee}
use gpuautoscaler.Scheduler.Model.{GpuNode, GpuWorkload}
use gpuautoscaler.Scheduler.Select.{Candidate, best_fit_loop, worst_fit_loop}
use gpuautoscaler.Scheduler.Candidates.{Ascending}

pub arg_min : (GpuNode → ℤ) → List Candidate → Option ℕ → ℤ → Option ℕ
arg_min key [] best m = best
arg_min key ((i, n) ∷ cs) best m =
    let better = ltb_ℤ (key n) m in
    arg_min key cs (if better then some i else best) (if better then key n else m)

-- `n` at index `i` has a key that no candidate is below, nor an earlier one equal to.
pub record Beats (key : GpuNode → ℤ) (i : ℕ) (n : GpuNode) (c : Candidate) : Type 0 where
  pub least : key n ≤ℤ key c.1
  pub first : c.0 < i → key n <ℤ key c.1

pub data Outcome {ℓ} (P : Candidate → Type ℓ) (key : GpuNode → ℤ) (cs : List Candidate)
    (best : Option ℕ) (m : ℤ) (i : ℕ) : Type ℓ where
  kept : best ≡ some i → All (λ c. m ≤ℤ key c.1) cs → Outcome P key cs best m i
  found : (n : GpuNode) → P (i, n) → key n <ℤ m → All (Beats key i n) cs → Outcome P key cs best m i

module _ {ℓ} (P : Candidate → Type ℓ) (key : GpuNode → ℤ) where
  better_step :
      (i j : ℕ) (n : GpuNode) (cs : List Candidate) (best : Option ℕ) (m : ℤ)
      → P (j, n)
      → key n <ℤ m
      → All (λ d. j < d.0) cs
      → Outcome P key cs (some j) (key n) i
      → Outcome P key ((j, n) ∷ cs) best m i
  better_step i j n cs best m p lt above (kept e all) =
      let same : j ≡ i = some-injective _ _ e in
      found n (subst (λ k. P (k, n)) same p) lt (
        record { least = omega arith; first = λ h. absurd (omega (arith, same)) },
        All-zip cs
            (λ c up le. record { least = le; first = λ h. absurd (omega (arith, same, up, h)) })
            above all,
      )
  better_step i j n cs best m p lt above (found x q below all) =
      found x q (omega arith) (record { least = omega arith; first = λ _. below }, all)

  same_step :
      (i j : ℕ) (n : GpuNode) (cs : List Candidate) (best : Option ℕ) (m : ℤ)
      → m ≤ℤ key n
      → Outcome P key cs best m i
      → Outcome P key ((j, n) ∷ cs) best m i
  same_step i j n cs best m le (kept e all) = kept e (le, all)
  same_step i j n cs best m le (found x q below all) =
      found x q below (record { least = omega arith; first = λ _. omega arith }, all)

  pub arg_min-Outcome :
      (cs : List Candidate) (best : Option ℕ) (m : ℤ) (i : ℕ)
      → All P cs
      → Ascending cs
      → arg_min key cs best m ≡ some i
      → Outcome P key cs best m i
  unfolding arg_min
  arg_min-Outcome [] best m i ps asc e = kept e tt
  arg_min-Outcome ((j, n) ∷ cs) best m i (p, ps) (above, asc) e =
      elim (Bool-cases (ltb_ℤ (key n) m)) [
        | inl lt ↦
            better_step i j n cs best m p (ground arith) above
              (arg_min-Outcome cs (some j) (key n) i ps asc (rw lt at e))
        | inr ge ↦
            same_step i j n cs best m (ground arith)
              (arg_min-Outcome cs best m i ps asc (rw ge at e))
      ]

  pub arg_min-none :
      (cs : List Candidate) (best : Option ℕ) (m : ℤ)
      → arg_min key cs best m ≡ none
      → (best ≡ none) × All (λ c. m ≤ℤ key c.1) cs
  unfolding arg_min
  arg_min-none [] best m e = (e, tt)
  arg_min-none ((j, n) ∷ cs) best m e = elim (Bool-cases (ltb_ℤ (key n) m)) [
    | inl lt ↦ cc (arg_min-none cs (some j) (key n) (rw lt at e)).0
    | inr ge ↦ let (b, all) = arg_min-none cs best m (rw ge at e) in (b, (ground arith, all))
  ]

-- The keys of the two scans.
abbrev pub left_over : GpuWorkload → GpuNode → ℤ
left_over w n = sub64 n.available_gpus w.gpu_request

abbrev pub minus_available : GpuNode → ℤ
minus_available n = pos 0 -ℤ n.available_gpus

-- Small enough for `float64` to hold it exactly.
abbrev pub IsSmall : ℤ → Type 0
IsSmall x = pos_part x + neg_part x ≤ 2 ^ 53

pub best_fit_loop-arg_min :
    (fl : Float64) (laws : IsIeee fl) (w : GpuWorkload) (cs : List Candidate) (best : Option ℕ)
    (m : ℤ)
    → All (λ c. IsSmall (left_over w c.1)) cs
    → IsSmall m
    → best_fit_loop fl w cs best (fl.of_int m) ≡ arg_min (left_over w) cs best m
unfolding best_fit_loop arg_min
best_fit_loop-arg_min fl laws w [] best m small h = refl
best_fit_loop-arg_min fl laws w ((i, n) ∷ cs) best m (k, small) h =
    let same = laws.lt-of_int (left_over w n) m k h in
    elim (Bool-cases (ltb_ℤ (left_over w n) m)) [
      | inl e ↦ rw (same, e) (best_fit_loop-arg_min fl laws w cs (some i) (left_over w n) small k)
      | inr e ↦ rw (same, e) (best_fit_loop-arg_min fl laws w cs best m small h)
    ]

negated_lt : (a b : ℤ) → ltb_ℤ a b ≡ ltb_ℤ (pos 0 -ℤ b) (pos 0 -ℤ a)
unfolding ◌-ℤ◌
negated_lt a b = ground arith

pub worst_fit_loop-arg_min :
    (cs : List Candidate) (best : Option ℕ) (m : ℤ)
    → worst_fit_loop cs best m ≡ arg_min minus_available cs best (pos 0 -ℤ m)
unfolding worst_fit_loop arg_min
worst_fit_loop-arg_min [] best m = refl
worst_fit_loop-arg_min ((i, n) ∷ cs) best m =
    let same = negated_lt m n.available_gpus in
    elim (Bool-cases (ltb_ℤ m n.available_gpus)) [
      | inl e ↦ rw (← same, e) (worst_fit_loop-arg_min cs (some i) n.available_gpus)
      | inr e ↦ rw (← same, e) (worst_fit_loop-arg_min cs best m)
    ]
