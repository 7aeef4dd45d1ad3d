-- ===== src/Sharing/Mps.antt =====
-- pkg/sharing/mps.go. The text of a number in decimal and the number that `fmt.Sscanf` reads are
-- parameters; the compute percentage of a configuration, which nothing reads, is left out.
use gpuautoscaler.Prelude.{
  ℕ, ◌+◌, ◌*◌, ℤ, pos, pos_part, neg_part, sub_ℕ, wrap64, ltb_ℤ, Bool, true, false, Option, none,
  some, List, [], ◌∷◌, GoMap, Entries, map_get, lookup, insert, length, keep, String, str_eq,
  if◌then◌else◌,
}
use gpuautoscaler.Prelude.Float.{Float64}
use gpuautoscaler.Prelude.Results.{Result, Error, ok, err, wrapped, ◌>>=◌}
use gpuautoscaler.Kube.{Pod, Node, Container, gpu_resource, is_running, text_at}
use gpuautoscaler.Sharing.Mig.{asked, consed, entries_of, original_gpu_request}

pub record MpsConfig : Type 0 where
  pub enabled : Bool
  pub max_clients : ℤ
  pub default_active_threads : ℤ
  pub memory_limit : ℤ

abbrev pub default_mps_config : MpsConfig
default_mps_config = record {
  enabled = true;
  max_clients = pos 16;
  default_active_threads = pos 100;
  memory_limit = pos 0;
}

abbrev is_true : Option String → Bool
is_true none = false
is_true (some v) = str_eq v "true"

-- A label of the node with the value "true".
abbrev pub has_capability : String → Node → Bool
has_capability label node = is_true (map_get label node.labels)

unfoldable pub is_mps_capable : Result Node → Result Bool
unfolding lookup
is_mps_capable got = got >>= λ node. ok (has_capability "nvidia.com/mps.capable" node)

-- A manager's change of a node: what is written, if anything, and the answer.
abbrev pub written : Node → Option Error → Option Node × Option Error
written node none = (some node, none)
written node (some e) = (some node, some (wrapped "failed to update node" e))

abbrev pub put_if : Bool → String → String → Entries String → Entries String
put_if b key value es = if b then insert es key value else es

abbrev mps_node : (ℤ → String) → MpsConfig → Node → Node
mps_node decimal config node =
    let a1 = insert (entries_of node.annotations) "nvidia.com/mps.enabled" "true" in
    let a2 = insert a1 "nvidia.com/mps.max-clients" (decimal config.max_clients) in
    let a3 = insert a2 "nvidia.com/mps.active-threads" (decimal config.default_active_threads) in
    let a4 =
      put_if (ltb_ℤ (pos 0) config.memory_limit) "nvidia.com/mps.memory-limit"
        (decimal config.memory_limit) a3 in
    record node {
      annotations = some a4;
      labels = some (insert (entries_of node.labels) "nvidia.com/mps.enabled" "true");
    }

abbrev pub updated : Result Node → (Node → Node) → Option Error → Option Node × Option Error
updated (err e) change answer = (none, some (wrapped "failed to get node" e))
updated (ok node) change answer = written (change node) answer

unfoldable pub enable_mps_on_node :
    (ℤ → String) → Result Node → MpsConfig → Option Error → Option Node × Option Error
unfolding insert
enable_mps_on_node decimal got config answer = updated got (mps_node decimal config) answer

-- A container that asks for GPUs keeps its request and gets the same limit; `extra` adds what a
-- fractional request needs. Writing to a nil map panics: `none`.
abbrev pub limited : (ℤ → Entries ℤ → Entries ℤ) → GoMap ℤ → GoMap ℤ → ℤ → Option Container
limited extra (some requests) (some limits) n = some (record {
  requests = some (extra n (insert requests gpu_resource n));
  limits = some (extra n (insert limits gpu_resource n));
})
limited extra _ _ n = none

abbrev pub keep_asked : (ℤ → Entries ℤ → Entries ℤ) → Option ℤ → Container → Option Container
keep_asked extra none c = some c
keep_asked extra (some n) c = limited extra c.requests c.limits n

unfoldable pub keep_requests :
    (ℤ → Entries ℤ → Entries ℤ) → List Container → Option (List Container)
unfolding insert lookup
keep_requests extra [] = some []
keep_requests extra (c ∷ cs) = consed (keep_asked extra (asked c) c) (keep_requests extra cs)

abbrev pub with_shared : ℤ → Entries ℤ → Entries ℤ
with_shared n es = if ltb_ℤ n (pos 1) then insert es "nvidia.com/gpu.shared" (pos 1) else es

abbrev pub mps_annotations : (ℤ → String) → MpsConfig → ℤ → GoMap String → GoMap String
mps_annotations decimal config request annotations =
    let a1 =
      insert (entries_of annotations) "gpu-autoscaler.io/original-gpu-request" (decimal request) in
    let a2 = insert a1 "gpu-autoscaler.io/mps-enabled" "true" in
    let a3 = insert a2 "nvidia.com/mps" "enabled" in
    let a4 =
      put_if (ltb_ℤ (pos 0) config.default_active_threads) "nvidia.com/mps.active-threads"
        (decimal config.default_active_threads) a3 in
    some (
      put_if (ltb_ℤ (pos 0) config.memory_limit) "nvidia.com/mps.memory-limit"
        (decimal config.memory_limit) a4)

-- `none` is the panic.
unfoldable pub convert_pod_to_mps : (ℤ → String) → Pod → MpsConfig → Option Pod
unfolding keep_requests original_gpu_request insert
convert_pod_to_mps decimal pod config = elim (keep_requests with_shared pod.containers) [
  | none ↦ none
  | some cs ↦ some (record pod {
    annotations =
        mps_annotations decimal config (original_gpu_request (pos 0) pod.containers)
          pod.annotations;
    containers = cs;
    node_selector = some (insert (entries_of pod.node_selector) "nvidia.com/mps.enabled" "true");
  })
]

abbrev pub workload_type : String
workload_type = "gpu-autoscaler.io/workload-type"

-- A sharing is unsuitable for training, for a utilization above `most`, and where it is disabled.
abbrev pub is_suitable : (fl : Float64) → fl.F → String → Pod → fl.F → Bool
is_suitable fl most label pod utilization =
    if str_eq (text_at workload_type pod.labels) "training"
    then false
    else if fl.lt most utilization
    then false
    else if str_eq (text_at label pod.annotations) "false"
    then false
    else true

abbrev pub is_workload_suitable_for_mps : (fl : Float64) → Pod → fl.F → Bool
is_workload_suitable_for_mps fl =
    is_suitable fl (fl.of_int (pos 50)) "gpu-autoscaler.io/mps-enabled"

pub record MpsStatus : Type 0 where
  pub node_name : String
  pub enabled : Bool
  pub max_clients : ℤ
  pub active_clients : ℕ

abbrev pub scanned : (String → ℤ) → Option String → ℤ
scanned scan none = pos 0
scanned scan (some s) = scan s

-- A running pod of the node with an annotation that is "enabled".
abbrev pub runs_with : String → Pod → Bool
runs_with label pod =
    if is_running pod.phase then str_eq (text_at label pod.annotations) "enabled" else false

unfoldable pub get_mps_status :
    (String → ℤ) → String → Result Node → Result (List Pod) → Result MpsStatus
unfolding lookup
get_mps_status scan name got listed = do
  node ← got
  pods ← listed
  ok (record {
    node_name = name;
    enabled = str_eq (text_at "nvidia.com/mps.enabled" node.annotations) "true";
    max_clients = scanned scan (map_get "nvidia.com/mps.max-clients" node.annotations);
    active_clients = length (keep (runs_with "nvidia.com/mps") pods);
  })

-- A product of two `int`s, with its wrap-around.
abbrev product : ℤ → ℤ → ℤ
product a b =
    sub_ℕ (pos_part a * pos_part b + neg_part a * neg_part b)
      (pos_part a * neg_part b + neg_part a * pos_part b)

unfoldable pub mul64 : ℤ → ℤ → ℤ
unfolding wrap64
mul64 a b = wrap64 (product a b)
