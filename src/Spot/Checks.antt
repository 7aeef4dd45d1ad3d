-- ===== src/Spot/Checks.antt =====
-- What a check of all nodes does for the node of each name.
use mathlib.Core.Path.{subst}
use gpuautoscaler.Prelude.{
  ◌≡◌, refl, sym, Bool, true, false, Bool-cases, Option, none, some, Option-cases, inl, inr, String,
  str_eq, eq_iff, List, [], ◌∷◌, keep, map_get, lookup, if◌then◌else◌,
}
use gpuautoscaler.Prelude.Results.{ok, err, Error, wrapped}
use gpuautoscaler.Prelude.Time.{Time}
use gpuautoscaler.Kube.{Node}
use gpuautoscaler.Spot.Notices.{
  or_else, time_of, both_succeed, is_evicting, is_new, IsNoted, unchanged, IsNoted-none,
  IsNoted-trans, noticed-IsNoted,
}
use gpuautoscaler.Spot.Model.{
  NodeAnswers, SpotOrchestrator, is_spot, check_node, check_nodes, check_spot_terminations,
  get_spot_nodes,
}

-- The label of a spot node.
abbrev pub is_labelled : Option String → Bool
is_labelled none = false
is_labelled (some capacity) = str_eq capacity "spot"

-- A spot node of this name is listed.
unfoldable pub has_spot : String → List Node → Bool
has_spot q [] = false
has_spot q (n ∷ ns) =
    let rest = has_spot q ns in
    if str_eq q n.name
    then (if is_labelled (map_get "gpu-autoscaler.io/capacity-type" n.labels) then true else rest)
    else rest

labelled : (n : Node) → is_labelled (map_get "gpu-autoscaler.io/capacity-type" n.labels) ≡ is_spot n
labelled n = elim (Option-cases (map_get "gpu-autoscaler.io/capacity-type" n.labels)) [
  | inl missing ↦ rw missing refl
  | inr (capacity, found) ↦ rw found refl
]

either_time :
    (c rest : Bool) (t : Option Time)
    → or_else (if c then t else none) (if rest then t else none)
      ≡ (if if c then true else rest then t else none)
either_time true true none = refl
either_time true true (some t) = refl
either_time true false none = refl
either_time true false (some t) = refl
either_time false rest t = refl

either_rest : (c rest : Bool) → (if c then rest else rest) ≡ rest
either_rest true rest = refl
either_rest false rest = refl

module _ (format : Time → String) (q : String) where
  module _ (answers : String → NodeAnswers) where
    -- One node of the loop, said of the answers about the name.
    check_node-IsNoted :
        (node : Node) (s : SpotOrchestrator)
        → IsNoted q
            (if str_eq q node.name then time_of (answers q).notice else none)
            (both_succeed (answers q).updates)
            s
            (check_node format (answers node.name) node s)
    unfolding check_node
    check_node-IsNoted node s =
        let h =
          noticed-IsNoted format q (answers node.name).notice (answers node.name).updates node s in
        elim (Bool-cases (str_eq q node.name)) [
          | inl same ↦
              subst
                (λ m.
                  IsNoted q (if str_eq q node.name then time_of (answers m).notice else none)
                    (both_succeed (answers m).updates) s
                    (check_node format (answers node.name) node s))
                (sym ((eq_iff q node.name).0 same)) h
          | inr other ↦ rw other (
              IsNoted-none q (both_succeed (answers node.name).updates)
                (both_succeed (answers q).updates) s _ (rw other at h))
        ]

    check_nodes-IsNoted :
        (nodes : List Node) (s : SpotOrchestrator)
        → IsNoted q
            (if has_spot q nodes then time_of (answers q).notice else none)
            (both_succeed (answers q).updates)
            s
            (check_nodes format answers (keep is_spot nodes) s)
    unfolding check_nodes has_spot
    check_nodes-IsNoted [] s = unchanged q (both_succeed (answers q).updates) s
    check_nodes-IsNoted (n ∷ ns) s =
        let time = time_of (answers q).notice in
        let succeed = both_succeed (answers q).updates in
        elim (Bool-cases (is_spot n)) [
          | inl spot ↦
              rw (labelled n, spot)
                (subst
                  (λ t. IsNoted q t succeed s (
                    check_nodes format answers (keep is_spot ns)
                      (check_node format (answers n.name) n s)))
                  (either_time (str_eq q n.name) (has_spot q ns) time)
                  (IsNoted-trans q _ _ succeed s _ _ (check_node-IsNoted n s)
                    (check_nodes-IsNoted ns (check_node format (answers n.name) n s))))
          | inr on_demand ↦
              rw (labelled n, on_demand, either_rest (str_eq q n.name) (has_spot q ns))
                (check_nodes-IsNoted ns s)
        ]

    -- After a check of the listed nodes a name has the warning that it had before, else one with the time
    -- of the notice if a spot node of the name is listed and there is a notice, else none. A goroutine
    -- evicts the pods of a node of the name if one did before, or if the warning is new and both updates
    -- of the node succeed. The check reports an error only if the nodes cannot be listed, and then it
    -- changes nothing.
    pub check_spot_terminations-IsChecked :
        (nodes : List Node) (s : SpotOrchestrator) (e : Error)
        → let s' = (check_spot_terminations format answers (ok nodes) s).0 in
          let before = lookup s.termination_warnings q in
          let after = lookup s'.termination_warnings q in
          (after ≡ or_else before (if has_spot q nodes then time_of (answers q).notice else none))
          × (is_evicting q s'.workers ≡ (
              if is_evicting q s.workers
              then true
              else if is_new before after
              then both_succeed (answers q).updates
              else false))
          × ((check_spot_terminations format answers (ok nodes) s).1 ≡ none)
          × (check_spot_terminations format answers (err e) s
              ≡ (s, some (wrapped "failed to get spot nodes" e)))
    unfolding check_spot_terminations get_spot_nodes
    check_spot_terminations-IsChecked nodes s e =
        let h = check_nodes-IsNoted nodes s in (h.warning, rw h.warning h.worker, refl, refl)
