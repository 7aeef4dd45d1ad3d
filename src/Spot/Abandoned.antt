-- ===== src/Spot/Abandoned.antt =====
-- A node whose update failed: the warning that `handleSpotTermination` has recorded is not taken back.
use mathlib.Core.Path.{subst}
use gpuautoscaler.Prelude.{
  ◌≡◌, ◌≢◌, refl, sym, ap, ◌∙◌, String, eq_iff, Option, none, some, Option-cases, inl, inr, List,
  [], ◌∷◌, ◌++◌, All, All-split, Entries, lookup, insert, lookup-insert, arith,
}
use gpuautoscaler.Prelude.Results.{Result, ok, err, Error}
use gpuautoscaler.Prelude.Time.{Time}
use gpuautoscaler.Kube.{Pod, Node}
use gpuautoscaler.Spot.Model.{
  UpdateAnswers, Handled, SpotOrchestrator, with_annotations, check_node, handle_spot_termination,
  after_handling, warned, noticed,
}
use gpuautoscaler.Spot.Evict.{gracefully_evict_pods}
use gpuautoscaler.Spot.Steps.{checks, ends, Steps, done, next, ended}
use gpuautoscaler.Spot.Workers.{IsOther, IsWatched, delete-keeps, no_worker, insert-keeps}

-- There is a warning for the node, and no goroutine that would remove it.
record IsAbandoned (name : String) (s : SpotOrchestrator) : Type 0 where
  found : lookup s.termination_warnings name ≢ none
  idle : All (IsOther name) s.workers

module _ (format : Time → String) (name : String) where
  warned-IsAbandoned :
      (first second : Option Error) (node : Node) (t : Time) (s : SpotOrchestrator)
      → lookup s.termination_warnings node.name ≡ none
      → IsAbandoned name s
      → IsAbandoned name (
          after_handling s (
            warned
              (insert s.termination_warnings node.name t)
              (with_annotations (format t) node)
              first
              second))
  unfolding with_annotations
  warned-IsAbandoned (some e) second node t s free a = record {
    found = insert-keeps s.termination_warnings node.name name t a.found;
    idle = a.idle;
  }
  warned-IsAbandoned none (some e) node t s free a = record {
    found = insert-keeps s.termination_warnings node.name name t a.found;
    idle = a.idle;
  }
  warned-IsAbandoned none none node t s free a = record {
    found = insert-keeps s.termination_warnings node.name name t a.found;
    idle = ((λ same. a.found (ap (lookup s.termination_warnings) (sym same) ∙ free)), a.idle);
  }

  noticed-IsAbandoned :
      (notice : Result (Option Time)) (a : UpdateAnswers) (node : Node) (s : SpotOrchestrator)
      → IsAbandoned name s
      → IsAbandoned name (noticed format notice a node s)
  unfolding handle_spot_termination
  noticed-IsAbandoned (err e) a node s h = h
  noticed-IsAbandoned (ok none) a node s h = h
  noticed-IsAbandoned (ok (some t)) a node s h =
      elim (Option-cases (lookup s.termination_warnings node.name)) [
        | inl free ↦
            rw (handle_spot_termination, free)
              (warned-IsAbandoned a.to_annotations a.to_cordon node t s free h)
        | inr (t0, earlier) ↦ rw (handle_spot_termination, earlier) h
      ]

  evicted-found :
      (listed : Result (List Pod)) (node_name : String) (warnings : Entries Time)
      → node_name ≢ name
      → lookup warnings name ≢ none
      → lookup (gracefully_evict_pods listed node_name warnings).1 name ≢ none
  unfolding gracefully_evict_pods
  evicted-found (err e) node_name warnings other found = found
  evicted-found (ok pods) node_name warnings other found =
      λ gone. found (sym (delete-keeps warnings node_name name (λ same. other (sym same))) ∙ gone)

  ended-IsAbandoned :
      (listed : Result (List Pod)) (before : List Node) (node : Node) (after : List Node)
      (s : SpotOrchestrator)
      → s.workers ≡ before ++ node ∷ after
      → IsAbandoned name s
      → IsAbandoned name (ended listed before node after s)
  ended-IsAbandoned listed before node after s among h =
      let (other, idle) =
        All-split (IsOther name) before node after (subst (All (IsOther name)) among h.idle) in
      record {
        found = evicted-found listed node.name s.termination_warnings other h.found;
        idle = idle;
      }

  Steps-IsAbandoned :
      {s t : SpotOrchestrator} → Steps format s t → IsAbandoned name s → IsAbandoned name t
  unfolding check_node
  Steps-IsAbandoned done h = h
  Steps-IsAbandoned (next (checks {s} a node) steps) h =
      Steps-IsAbandoned steps (noticed-IsAbandoned a.notice a.updates node s h)
  Steps-IsAbandoned (next (ends {s} listed before node after among) steps) h =
      Steps-IsAbandoned steps (ended-IsAbandoned listed before node after s among h)

-- What the handling of a notice comes to when nothing is done.
abbrev pub ignored : Entries Time → Handled
ignored warnings = record { warnings = warnings; updates = []; worker = none; answer = none }

module _ (format : Time → String) (node : Node) (t : Time) (s : SpotOrchestrator) where
  just_inserted : lookup (insert s.termination_warnings node.name t) node.name ≢ none
  just_inserted = ground (
    arith,
    lookup-insert s.termination_warnings node.name t node.name,
    eq_iff node.name node.name,
  )

  failed-IsAbandoned :
      (first second : Option Error)
      → lookup s.termination_warnings node.name ≡ none
      → IsWatched s
      → let h =
          warned
            (insert s.termination_warnings node.name t)
            (with_annotations (format t) node)
            first
            second in
        h.answer ≢ none → IsAbandoned node.name (after_handling s h)
  failed-IsAbandoned (some e) second free w failed = record {
    found = just_inserted;
    idle = no_worker s.termination_warnings node free s.workers w.covered;
  }
  failed-IsAbandoned none (some e) free w failed = record {
    found = just_inserted;
    idle = no_worker s.termination_warnings node free s.workers w.covered;
  }
  failed-IsAbandoned none none free w failed = absurd (failed refl)

  handled-IsAbandoned :
      (a : UpdateAnswers)
      → IsWatched s
      → (handle_spot_termination format a node t s.termination_warnings).answer ≢ none
      → IsAbandoned node.name
          (after_handling s (handle_spot_termination format a node t s.termination_warnings))
  unfolding handle_spot_termination
  handled-IsAbandoned a w = elim (Option-cases (lookup s.termination_warnings node.name)) [
    | inl free ↦
        rw (handle_spot_termination, free) (failed-IsAbandoned a.to_annotations a.to_cordon free w)
    | inr (t0, earlier) ↦ rw (handle_spot_termination, earlier) (λ failed. absurd (failed refl))
  ]

  -- When an update of a node fails, the node is given up: however the checks and the evictions go on,
  -- no later notice of it makes the orchestrator write the node or evict its pods.
  pub handle_spot_termination-ignored :
      (a : UpdateAnswers)
      → IsWatched s
      → (handle_spot_termination format a node t s.termination_warnings).answer ≢ none
      → {u : SpotOrchestrator}
      → Steps format
          (after_handling s (handle_spot_termination format a node t s.termination_warnings))
          u
      → (again : UpdateAnswers) (later : Time)
      → handle_spot_termination format again node later u.termination_warnings
        ≡ ignored u.termination_warnings
  unfolding handle_spot_termination
  handle_spot_termination-ignored a w failed {u} steps again later =
      let h = Steps-IsAbandoned format node.name steps (handled-IsAbandoned a w failed) in
      elim (Option-cases (lookup u.termination_warnings node.name)) [
        | inl free ↦ absurd (h.found free)
        | inr (t0, earlier) ↦ rw (handle_spot_termination, earlier) refl
      ]
