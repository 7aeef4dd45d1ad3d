-- ===== src/Kube.antt =====
-- The fields of the Kubernetes objects that the code reads or writes. A resource quantity stands for
-- the integer that its `Value()` returns; a label or annotation that is missing reads as "".
use gpuautoscaler.Prelude.{ℤ, String, Bool, Option, none, some, List, GoMap, map_get, true, false}
use gpuautoscaler.Prelude.Time.{Time}

pub data PodPhase : Type 0 where
  pending running succeeded failed unknown : PodPhase

abbrev pub is_pending : PodPhase → Bool
is_pending pending = true
is_pending _ = false

abbrev pub is_running : PodPhase → Bool
is_running running = true
is_running _ = false

pub record Container : Type 0 where
  pub requests : GoMap ℤ
  pub limits : GoMap ℤ

pub record Toleration : Type 0 where
  pub key : String
  pub operator : String
  pub effect : String

pub record Pod : Type 0 where
  pub name : String
  pub namespace : String
  pub node_name : String
  pub phase : PodPhase
  pub labels : GoMap String
  pub annotations : GoMap String
  pub containers : List Container
  pub priority : Option ℤ
  pub created : Time
  pub start_time : Option Time
  pub node_selector : GoMap String
  pub tolerations : List Toleration

pub record Node : Type 0 where
  pub name : String
  pub labels : GoMap String
  pub annotations : GoMap String
  pub capacity : GoMap ℤ
  pub unschedulable : Bool

abbrev text_or : Option String → String
text_or none = ""
text_or (some s) = s

-- `m[key]` of a map of texts.
abbrev pub text_at : String → GoMap String → String
text_at key m = text_or (map_get key m)

abbrev pub gpu_resource : String
gpu_resource = "nvidia.com/gpu"

abbrev pub memory_resource : String
memory_resource = "memory"
