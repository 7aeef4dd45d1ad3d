-- ===== src/Spot/Steps.antt =====
-- The orchestrator as a state machine: the loop of `checkSpotTerminations` and the goroutines of
-- `gracefullyEvictPods` take turns.
use gpuautoscaler.Prelude.{◌≡◌, refl, keep, String, Option, none, some, List, [], ◌∷◌, ◌++◌}
use gpuautoscaler.Prelude.Results.{Result, ok, err, Error, wrapped}
use gpuautoscaler.Prelude.Time.{Time}
use gpuautoscaler.Kube.{Pod, Node}
use gpuautoscaler.Spot.Model.{
  NodeAnswers, SpotOrchestrator, is_spot, check_node, check_nodes, check_spot_terminations,
  get_spot_nodes,
}
use gpuautoscaler.Spot.Evict.{gracefully_evict_pods}

-- A goroutine ends: its list of pods was answered, and it is no worker any more.
abbrev pub ended :
    Result (List Pod) → List Node → Node → List Node → SpotOrchestrator → SpotOrchestrator
ended listed before node after s = record {
  termination_warnings = (gracefully_evict_pods listed node.name s.termination_warnings).1;
  workers = before ++ after;
}

-- The error that a failed list of nodes becomes.
abbrev pub failure : Result (List Node) → Option Error
failure (err e) = some (wrapped "failed to get spot nodes" e)
failure (ok nodes) = none

module _ (format : Time → String) where
  pub data Step : SpotOrchestrator → SpotOrchestrator → Type 0 where
    checks :
        {s : SpotOrchestrator} (a : NodeAnswers) (node : Node) → Step s (check_node format a node s)
    ends :
        {s : SpotOrchestrator} (listed : Result (List Pod)) (before : List Node) (node : Node)
        (after : List Node)
        → s.workers ≡ before ++ node ∷ after
        → Step s (ended listed before node after s)

  pub data Steps : SpotOrchestrator → SpotOrchestrator → Type 0 where
    done : {s : SpotOrchestrator} → Steps s s
    next : {s t u : SpotOrchestrator} → Step s t → Steps t u → Steps s u

  check_nodes-Steps :
      (answers : String → NodeAnswers) (nodes : List Node) (s : SpotOrchestrator)
      → Steps s (check_nodes format answers nodes s)
  unfolding check_nodes
  check_nodes-Steps answers [] s = done
  check_nodes-Steps answers (n ∷ ns) s =
      next (checks (answers n.name) n)
        (check_nodes-Steps answers ns (check_node format (answers n.name) n s))

  -- A check of all nodes is a run of the state machine, whatever the answers are; it returns an error
  -- exactly if the nodes cannot be listed, and then nothing has changed.
  pub check_spot_terminations-Steps :
      (answers : String → NodeAnswers) (listed : Result (List Node)) (e : Error)
      (s : SpotOrchestrator)
      → Steps s (check_spot_terminations format answers listed s).0
        × ((check_spot_terminations format answers listed s).1 ≡ failure listed)
        × (check_spot_terminations format answers (err e) s ≡ (s, failure (err e)))
  unfolding check_spot_terminations get_spot_nodes
  check_spot_terminations-Steps answers (err e') e s = (done, refl, refl)
  check_spot_terminations-Steps answers (ok nodes) e s =
      (check_nodes-Steps answers (keep is_spot nodes) s, refl, refl)
