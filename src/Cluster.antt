-- ===== src/Cluster.antt =====
-- The Kubernetes objects of the workload cluster, with the fields that the program reads. The types
-- are those of k8s.io/api/core/v1; a resource quantity stands as the readings that the code takes
-- of it, `Cpu().MilliValue()` and `Memory().Value()`.
use vpsie_k8s_capi_autoscale.Base.{ℤ, String, Bool, Option, List, Dict}

pub record Container : Type 0 where
  pub cpu_millis : ℤ
  pub memory_bytes : ℤ

pub record Taint : Type 0 where
  pub key : String
  pub value : String
  pub effect : String

pub record Toleration : Type 0 where
  pub key : String
  pub operator : String
  pub value : String
  pub effect : String

pub record NodeSelectorRequirement : Type 0 where
  pub key : String
  pub operator : String
  pub values : List String

pub record NodeSelectorTerm : Type 0 where
  pub match_expressions : List NodeSelectorRequirement

-- `none` at each level is the nil pointer.
pub record NodeAffinity : Type 0 where
  pub required_terms : Option (List NodeSelectorTerm)

pub record Affinity : Type 0 where
  pub node_affinity : Option NodeAffinity

pub record PodCondition : Type 0 where
  pub type_name : String
  pub status : String
  pub reason : String

pub record Pod : Type 0 where
  pub name : String
  pub namespace : String
  pub node_name : String
  pub phase : String
  pub owner_kinds : List String
  pub annotations : Dict String
  pub containers : List Container
  pub init_containers : List Container
  pub tolerations : List Toleration
  pub node_selector : Dict String
  pub affinity : Option Affinity
  pub conditions : List PodCondition

pub record Node : Type 0 where
  pub name : String
  pub labels : Dict String
  pub taints : List Taint
  pub unschedulable : Bool
  pub allocatable_cpu : ℤ
  pub allocatable_memory : ℤ

pub record NodeMetrics : Type 0 where
  pub name : String
  pub usage_cpu : ℤ
  pub usage_memory : ℤ
