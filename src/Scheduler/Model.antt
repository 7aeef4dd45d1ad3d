-- ===== src/Scheduler/Model.antt =====
-- The data of pkg/scheduler/binpacking.go. `UtilizationScore` and `MemoryUtilization` of a `GPUNode`
-- and `SavedGPUs` and `Timestamp` of a result are left out: nothing there sets or reads them after
-- their zero values.
use gpuautoscaler.Prelude.{ℤ, ℕ, String, Bool, List, Entries}
use gpuautoscaler.Kube.{Pod}

pub record GpuNode : Type 0 where
  pub name : String
  pub total_gpus : ℤ
  pub available_gpus : ℤ
  pub gpu_type : String
  pub allocated_pods : List Pod
  pub supports_mig : Bool
  pub supports_mps : Bool
  pub supports_time_slice : Bool

pub record GpuWorkload : Type 0 where
  pub pod : Pod
  pub gpu_request : ℤ
  pub memory_request : ℤ
  pub priority : ℤ
  pub sharing_enabled : Bool
  pub preferred_mode : String

-- `PackStrategy` is a string type; `other` is any text but the three constants.
pub data PackStrategy : Type 0 where
  best_fit first_fit worst_fit : PackStrategy
  other : String → PackStrategy

-- `Placements` maps a pod's name to a node's.
pub record PackingResult : Type 0 where
  pub placements : Entries String
  pub consolidated_pods : ℕ
