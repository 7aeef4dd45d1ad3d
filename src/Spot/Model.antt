-- ===== src/Spot/Model.antt =====
-- The handling of termination notices: `checkSpotTerminations` and `handleSpotTermination`.
use gpuautoscaler.Prelude.{
  Bool, true, false, Option, none, some, String, str_eq, List, [], ◌∷◌, keep, lookup, insert,
  Entries, GoMap, map_get,
}
use gpuautoscaler.Prelude.Results.{Result, Error, ok, err, wrapped, wrap_error, ◌>>=◌}
use gpuautoscaler.Prelude.Time.{Time}
use gpuautoscaler.Kube.{Node}
use gpuautoscaler.Autoscaler.Model.{capacity_type_label, spot}

abbrev pub termination_time : String
termination_time = "gpu-autoscaler.io/spot-termination-time"

abbrev pub interruption_warning : String
interruption_warning = "gpu-autoscaler.io/spot-interruption-warning"

abbrev is_spot_type : Option String → Bool
is_spot_type none = false
is_spot_type (some t) = str_eq t spot

abbrev pub is_spot : Node → Bool
is_spot node = is_spot_type (map_get capacity_type_label node.labels)

unfoldable pub get_spot_nodes : Result (List Node) → Result (List Node)
get_spot_nodes listed = listed >>= λ nodes. ok (keep is_spot nodes)

-- The annotations to write to: a nil map is made first.
abbrev made : GoMap String → Entries String
made none = []
made (some es) = es

-- The node with the annotations of a termination; `shown` is the time in the format RFC 3339.
unfoldable pub with_annotations : String → Node → Node
unfolding insert
with_annotations shown node =
    let es = insert (made node.annotations) termination_time shown in
    record node { annotations = some (insert es interruption_warning "true") }

-- The answers to the two updates of a node.
pub record UpdateAnswers : Type 0 where
  pub to_annotations : Option Error
  pub to_cordon : Option Error

-- What a call leaves behind: the warnings, the nodes written to the API, and the node whose pods a
-- new goroutine evicts.
pub record Handled : Type 0 where
  pub warnings : Entries Time
  pub updates : List Node
  pub worker : Option Node
  pub answer : Option Error

abbrev pub marked : Entries Time → Node → Option Error → Handled
marked warnings node (some e) = record {
  warnings = warnings;
  updates = node ∷ record node { unschedulable = true } ∷ [];
  worker = none;
  answer = some (wrapped "failed to mark node unschedulable" e);
}
marked warnings node none = record {
  warnings = warnings;
  updates = node ∷ record node { unschedulable = true } ∷ [];
  worker = some (record node { unschedulable = true });
  answer = none;
}

-- After the first update.
abbrev pub warned : Entries Time → Node → Option Error → Option Error → Handled
warned warnings node (some e) to_cordon = record {
  warnings = warnings;
  updates = node ∷ [];
  worker = none;
  answer = some (wrapped "failed to update node annotations" e);
}
warned warnings node none to_cordon = marked warnings node to_cordon

unfoldable pub handle_spot_termination :
    (Time → String) → UpdateAnswers → Node → Time → Entries Time → Handled
unfolding lookup insert with_annotations
handle_spot_termination format a node t warnings = elim (lookup warnings node.name) [
  | some earlier ↦ record { warnings = warnings; updates = []; worker = none; answer = none }
  | none ↦
      warned (insert warnings node.name t) (with_annotations (format t) node) a.to_annotations
        a.to_cordon
]

-- The orchestrator: its map of warnings, and the nodes whose pods a goroutine evicts at present.
pub record SpotOrchestrator : Type 0 where
  pub termination_warnings : Entries Time
  pub workers : List Node

abbrev pub new_spot_orchestrator : SpotOrchestrator
new_spot_orchestrator = record { termination_warnings = []; workers = [] }

-- What is answered about a node: the provider's notice with its time, if there is one, and the updates.
pub record NodeAnswers : Type 0 where
  pub notice : Result (Option Time)
  pub updates : UpdateAnswers

abbrev pub with_worker : Option Node → List Node → List Node
with_worker none workers = workers
with_worker (some node) workers = node ∷ workers

abbrev pub after_handling : SpotOrchestrator → Handled → SpotOrchestrator
after_handling s h = record {
  termination_warnings = h.warnings;
  workers = with_worker h.worker s.workers;
}

abbrev pub noticed :
    (Time → String)
    → Result (Option Time)
    → UpdateAnswers
    → Node
    → SpotOrchestrator
    → SpotOrchestrator
noticed format (err e) a node s = s
noticed format (ok none) a node s = s
noticed format (ok (some t)) a node s =
    after_handling s (handle_spot_termination format a node t s.termination_warnings)

-- One round of the loop in `checkSpotTerminations`; it logs the errors and goes on.
unfoldable pub check_node :
    (Time → String) → NodeAnswers → Node → SpotOrchestrator → SpotOrchestrator
unfolding handle_spot_termination
check_node format a node s = noticed format a.notice a.updates node s

unfoldable pub check_nodes :
    (Time → String) → (String → NodeAnswers) → List Node → SpotOrchestrator → SpotOrchestrator
unfolding check_node
check_nodes format answers [] s = s
check_nodes format answers (n ∷ ns) s =
    check_nodes format answers ns (check_node format (answers n.name) n s)

abbrev checked :
    (Time → String)
    → (String → NodeAnswers)
    → Result (List Node)
    → SpotOrchestrator
    → SpotOrchestrator × Option Error
checked format answers (err e) s = (s, some e)
checked format answers (ok nodes) s = (check_nodes format answers nodes s, none)

unfoldable pub check_spot_terminations :
    (Time → String)
    → (String → NodeAnswers)
    → Result (List Node)
    → SpotOrchestrator
    → SpotOrchestrator × Option Error
unfolding check_nodes get_spot_nodes
check_spot_terminations format answers listed s =
    checked format answers (wrap_error "failed to get spot nodes" (get_spot_nodes listed)) s
