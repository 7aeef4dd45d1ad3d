-- ===== src/Spot/Workers.antt =====
-- At most one goroutine evicts the pods of a node.
use mathlib.Core.Path.{subst}
use gpuautoscaler.Prelude.{
  ◌≡◌, ◌≢◌, sym, ap, ◌∙◌, String, eq_iff, Option, none, some, Option-cases, inl, inr, List, [], ◌∷◌,
  ◌++◌, All, All-mono, All-split, All-zip, Entries, lookup, insert, delete, lookup-insert,
  lookup-delete, arith,
}
use gpuautoscaler.Prelude.Results.{Result, ok, err, Error}
use gpuautoscaler.Prelude.Time.{Time}
use gpuautoscaler.Kube.{Pod, Node}
use gpuautoscaler.Spot.Model.{
  UpdateAnswers, SpotOrchestrator, new_spot_orchestrator, with_annotations, check_node,
  handle_spot_termination, after_handling, warned, noticed,
}
use gpuautoscaler.Spot.Evict.{gracefully_evict_pods}
use gpuautoscaler.Spot.Steps.{Step, checks, ends, Steps, done, next, ended}

abbrev pub IsOther : String → Node → Type 0
IsOther name node = node.name ≢ name

abbrev pub Distinct : List Node → Type 0
Distinct [] = Unit
Distinct (n ∷ ns) = All (IsOther n.name) ns × Distinct ns

abbrev HasWarning : Entries Time → Node → Type 0
HasWarning warnings node = lookup warnings node.name ≢ none

pub record IsWatched (s : SpotOrchestrator) : Type 0 where
  pub distinct : Distinct s.workers
  pub covered : All (HasWarning s.termination_warnings) s.workers

pub insert-keeps :
    (warnings : Entries Time) (name q : String) (t : Time)
    → lookup warnings q ≢ none
    → lookup (insert warnings name t) q ≢ none
insert-keeps warnings name q t found = ground (arith, found, lookup-insert warnings name t q)

pub delete-keeps :
    (warnings : Entries Time) (name q : String)
    → q ≢ name
    → lookup (delete warnings name) q ≡ lookup warnings q
delete-keeps warnings name q other =
    ground (arith, lookup-delete warnings name q, eq_iff q name, other)

-- A node without a warning has no worker.
pub no_worker :
    (warnings : Entries Time) (node : Node)
    → lookup warnings node.name ≡ none
    → (ns : List Node) → All (HasWarning warnings) ns
    → All (IsOther node.name) ns
no_worker warnings node free ns h =
    All-mono ns (λ n found same. found (ap (lookup warnings) same ∙ free)) h

insert-warned :
    (warnings : Entries Time) (name : String) (t : Time) (ns : List Node)
    → All (HasWarning warnings) ns
    → All (HasWarning (insert warnings name t)) ns
insert-warned warnings name t ns h =
    All-mono ns (λ n found. insert-keeps warnings name n.name t found) h

module _ (format : Time → String) where
  inserted-found :
      (warnings : Entries Time) (node : Node) (t : Time)
      → lookup (insert warnings node.name t) (with_annotations (format t) node).name ≢ none
  unfolding with_annotations
  inserted-found warnings node t =
      ground (arith, lookup-insert warnings node.name t node.name, eq_iff node.name node.name)

  warned-IsWatched :
      (first second : Option Error) (node : Node) (t : Time) (s : SpotOrchestrator)
      → lookup s.termination_warnings node.name ≡ none
      → IsWatched s
      → IsWatched (
          after_handling s (
            warned
              (insert s.termination_warnings node.name t)
              (with_annotations (format t) node)
              first
              second))
  unfolding with_annotations
  warned-IsWatched (some e) second node t s free w = record {
    distinct = w.distinct;
    covered = insert-warned s.termination_warnings node.name t s.workers w.covered;
  }
  warned-IsWatched none (some e) node t s free w = record {
    distinct = w.distinct;
    covered = insert-warned s.termination_warnings node.name t s.workers w.covered;
  }
  warned-IsWatched none none node t s free w = record {
    distinct = (no_worker s.termination_warnings node free s.workers w.covered, w.distinct);
    covered = (
      inserted-found s.termination_warnings node t,
      insert-warned s.termination_warnings node.name t s.workers w.covered,
    );
  }

  handled-IsWatched :
      (a : UpdateAnswers) (node : Node) (t : Time) (s : SpotOrchestrator)
      → IsWatched s
      → IsWatched
          (after_handling s (handle_spot_termination format a node t s.termination_warnings))
  unfolding handle_spot_termination
  handled-IsWatched a node t s w = elim (Option-cases (lookup s.termination_warnings node.name)) [
    | inl free ↦
        rw (handle_spot_termination, free)
          (warned-IsWatched a.to_annotations a.to_cordon node t s free w)
    | inr (t0, found) ↦ rw (handle_spot_termination, found) w
  ]

  noticed-IsWatched :
      (notice : Result (Option Time)) (a : UpdateAnswers) (node : Node) (s : SpotOrchestrator)
      → IsWatched s
      → IsWatched (noticed format notice a node s)
  noticed-IsWatched (err e) a node s w = w
  noticed-IsWatched (ok none) a node s w = w
  noticed-IsWatched (ok (some t)) a node s w = handled-IsWatched a node t s w

Distinct-remove :
    (before : List Node) (node : Node) (after : List Node)
    → Distinct (before ++ node ∷ after)
    → Distinct (before ++ after) × All (IsOther node.name) (before ++ after)
Distinct-remove [] node after (others, rest) = (rest, others)
Distinct-remove (n ∷ before) node after (others, rest) =
    let (distinct, other) = Distinct-remove before node after rest in
    let (apart, kept) = All-split (IsOther n.name) before node after others in
    ((kept, distinct), ((λ same. apart (sym same)), other))

delete-warned :
    (warnings : Entries Time) (name : String) (ns : List Node)
    → All (IsOther name) ns
    → All (HasWarning warnings) ns
    → All (HasWarning (delete warnings name)) ns
delete-warned warnings name ns others h =
    All-zip ns
      (λ n other found none_left. found (sym (delete-keeps warnings name n.name other) ∙ none_left))
      others h

ended-IsWatched :
    (listed : Result (List Pod)) (before : List Node) (node : Node) (after : List Node)
    (s : SpotOrchestrator)
    → s.workers ≡ before ++ node ∷ after
    → IsWatched s
    → IsWatched (ended listed before node after s)
unfolding gracefully_evict_pods
ended-IsWatched (err e) before node after s among w =
    let (distinct, _) = Distinct-remove before node after (subst Distinct among w.distinct) in
    let (_, kept) =
      All-split (HasWarning s.termination_warnings) before node after
        (subst (All (HasWarning s.termination_warnings)) among w.covered) in
    record { distinct = distinct; covered = kept }
ended-IsWatched (ok pods) before node after s among w =
    let (distinct, others) = Distinct-remove before node after (subst Distinct among w.distinct) in
    let (_, kept) =
      All-split (HasWarning s.termination_warnings) before node after
        (subst (All (HasWarning s.termination_warnings)) among w.covered) in
    record {
      distinct = distinct;
      covered = delete-warned s.termination_warnings node.name (before ++ after) others kept;
    }

module _ (format : Time → String) where
  Step-IsWatched : {s t : SpotOrchestrator} → Step format s t → IsWatched s → IsWatched t
  unfolding check_node
  Step-IsWatched (checks {s} a node) w = noticed-IsWatched format a.notice a.updates node s w
  Step-IsWatched (ends {s} listed before node after among) w =
      ended-IsWatched listed before node after s among w

  -- However the checks and the evictions take turns, no two goroutines evict the pods of the same node,
  -- and a node with a goroutine keeps its warning, so that a notice that is repeated starts no other.
  pub Steps-IsWatched : {s t : SpotOrchestrator} → Steps format s t → IsWatched s → IsWatched t
  Steps-IsWatched done w = w
  Steps-IsWatched (next step steps) w = Steps-IsWatched steps (Step-IsWatched step w)

pub new-IsWatched : IsWatched new_spot_orchestrator
new-IsWatched = record { distinct = _; covered = _ }
