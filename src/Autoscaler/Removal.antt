-- ===== src/Autoscaler/Removal.antt =====
-- Which nodes `scaleDown` takes away.
use mathlib.Core.List.{append-nil, append_assoc}
use gpuautoscaler.Prelude.{
  ℕ, zero, suc, ◌+◌, ◌-◌, ◌≤◌, ◌≡◌, refl, sym, ap, ◌∙◌, ℤ, pos, negsuc, pos_part, ◌-ℤ◌, ltb_ℤ,
  leb_ℤ, sub64-eq, sub64, InRange, List, [], ◌∷◌, ◌++◌, keep, length, length-append, arith, true,
  false, Bool-cases, inl, inr, String,
}
use gpuautoscaler.Kube.{Node}
use gpuautoscaler.Autoscaler.Model.{spot, on_demand}
use gpuautoscaler.Autoscaler.Decide.{has_capacity_type}
use gpuautoscaler.Autoscaler.Execute.{take_nodes, select_nodes_to_remove}

module _ {ℓ} {A : Type ℓ} where
  abbrev pub take : ℕ → List A → List A
  take zero xs = []
  take (suc n) [] = []
  take (suc n) (x ∷ xs) = x ∷ take n xs

  length-take-le : (n : ℕ) (xs : List A) → length (take n xs) ≤ n
  length-take-le zero xs = omega arith
  length-take-le (suc n) [] = omega arith
  length-take-le (suc n) (x ∷ xs) = omega (arith, length-take-le n xs)

  take-append :
      (n : ℕ) (xs ys : List A) → take n (xs ++ ys) ≡ take n xs ++ take (n - length (take n xs)) ys
  take-append zero xs ys = refl
  take-append (suc n) [] ys = let e : suc n ≡ suc n - 0 = omega arith in ap (λ k. take k ys) e
  take-append (suc n) (x ∷ xs) ys =
      let m = length (take n xs) in
      let e : n - m ≡ suc n - suc m = omega arith in
      ap (◌∷◌ x) (take-append n xs ys ∙ ap (λ k. take n xs ++ take k ys) e)

  take-nil : (n : ℕ) → take n [] ≡ []
  take-nil zero = refl
  take-nil (suc n) = refl

take_nodes-eq :
    (kind : String) (count : ℕ) (ns chosen : List Node) (room : ℕ)
    → length chosen + room ≡ count
    → take_nodes kind (pos count) ns chosen ≡ chosen ++ take room (keep (has_capacity_type kind) ns)
unfolding take_nodes
take_nodes-eq kind count [] chosen room h = rw (take-nil room) (sym (append-nil chosen))
take_nodes-eq kind count (n ∷ ns) chosen zero h =
    let full : leb_ℤ (pos count) (pos (length chosen)) ≡ true = ground arith in
    rw full (sym (append-nil chosen))
take_nodes-eq kind count (n ∷ ns) chosen (suc room) h =
    let short : leb_ℤ (pos count) (pos (length chosen)) ≡ false = ground arith in
    elim (Bool-cases (has_capacity_type kind n)) [
      | inl fits ↦
          rw (short, fits)
            (take_nodes-eq kind count ns (chosen ++ n ∷ []) room
                (omega (arith, length-append chosen (n ∷ [])))
              ∙ append_assoc chosen (n ∷ []) (take room (keep (has_capacity_type kind) ns)))
      | inr not ↦ rw (short, not) (take_nodes-eq kind count ns chosen (suc room) h)
    ]

-- The nodes in the order of preference: spot, then on demand. Others are never removed.
abbrev pub removable : List Node → List Node
removable nodes = keep (has_capacity_type spot) nodes ++ keep (has_capacity_type on_demand) nodes

select_positive :
    (nodes : List Node) (target : ℤ) (count : ℕ)
    → sub64 (pos (length nodes)) target ≡ pos (suc count)
    → select_nodes_to_remove nodes target ≡ take (suc count) (removable nodes)
unfolding select_nodes_to_remove
select_positive nodes target count e =
    let spots = keep (has_capacity_type spot) nodes in
    let others = keep (has_capacity_type on_demand) nodes in
    let taken = take (suc count) spots in
    let first = take_nodes-eq spot (suc count) nodes [] (suc count) (omega arith) in
    let some_left : leb_ℤ (pos (suc count)) (pos 0) ≡ false = ground arith in
    elim (Bool-cases (ltb_ℤ (pos (length taken)) (pos (suc count)))) [
      | inl more ↦
          rw (e, some_left, first, more)
            (take_nodes-eq on_demand (suc count) nodes taken (suc count - length taken)
                (omega (arith, length-take-le (suc count) spots))
              ∙ sym (take-append (suc count) spots others))
      | inr enough ↦
          let none_left : suc count - length taken ≡ 0 = ground arith in
          rw (e, some_left, first, enough)
            (sym (append-nil taken)
              ∙ ap (λ k. taken ++ take k others) (sym none_left)
              ∙ sym (take-append (suc count) spots others))
    ]

select_none :
    (nodes : List Node) (target : ℤ)
    → leb_ℤ (sub64 (pos (length nodes)) target) (pos 0) ≡ true
    → select_nodes_to_remove nodes target ≡ []
unfolding select_nodes_to_remove
select_none nodes target e = rw e

-- If the difference between the number of nodes and the target fits an `int`, `selectNodesToRemove`
-- returns the first nodes of the spot nodes followed by the on-demand nodes, as many as there are nodes
-- above the target (none if there are not more nodes than the target).
pub select_nodes_to_remove-take :
    (nodes : List Node) (target : ℤ)
    → InRange (pos (length nodes) -ℤ target)
    → select_nodes_to_remove nodes target
      ≡ take (pos_part (pos (length nodes) -ℤ target)) (removable nodes)
select_nodes_to_remove-take nodes target range =
    go (pos (length nodes) -ℤ target) (sub64-eq (pos (length nodes)) target range)
  where
    go :
        (count : ℤ)
        → sub64 (pos (length nodes)) target ≡ count
        → select_nodes_to_remove nodes target ≡ take (pos_part count) (removable nodes)
    go (pos zero) e = select_none nodes target (rw e (ground arith))
    go (pos (suc n)) e = select_positive nodes target n e
    go (negsuc n) e = select_none nodes target (rw e (ground arith))
