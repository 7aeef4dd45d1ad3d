-- ===== src/Sharing/Nodes.antt =====
-- The operations of `MIGManager` on nodes. `strings.ReplaceAll(id, ".", "-")` is a parameter.
use gpuautoscaler.Prelude.{Bool, Option, some, insert, lookup, String}
use gpuautoscaler.Prelude.Results.{Result, Error, ok, ◌>>=◌}
use gpuautoscaler.Kube.{Node}
use gpuautoscaler.Sharing.Mig.{MigProfile, entries_of}
use gpuautoscaler.Sharing.Mps.{has_capability, updated}

unfoldable pub is_mig_capable : Result Node → Result Bool
unfolding lookup
is_mig_capable got = got >>= λ node. ok (has_capability "nvidia.com/mig.capable" node)

abbrev mig_node : (String → String) → MigProfile → Node → Node
mig_node dashed p node =
    let a1 = insert (entries_of node.annotations) "nvidia.com/mig.config" p.device_id in
    record node {
      annotations = some (insert a1 "nvidia.com/mig.config.state" "pending");
      labels = some (insert (entries_of node.labels) "nvidia.com/mig.config" (dashed p.device_id));
    }

unfoldable pub apply_mig_configuration :
    (String → String) → Result Node → MigProfile → Option Error → Option Node × Option Error
unfolding insert
apply_mig_configuration dashed got p answer = updated got (mig_node dashed p) answer
