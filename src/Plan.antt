-- ===== src/Plan.antt =====
-- internal/vpsie/types.go and internal/utilization/types.go: plans, plan categories and the
-- utilization of a node, over any type of floats.
use vpsie_k8s_capi_autoscale.Base.{ℤ, String, List, Dict}
use vpsie_k8s_capi_autoscale.Cluster.{Pod, Taint}

pub record PlanCategory : Type 0 where
  pub identifier : String
  pub name : String

-- `ram` in MB, `ssd` and `traffic` in GB.
pub record Plan (F : Type 0) : Type 0 where
  pub identifier : String
  pub nickname : String
  pub cpu : ℤ
  pub ram : ℤ
  pub ssd : ℤ
  pub traffic : ℤ
  pub price_monthly : F
  pub category_id : String
  pub category_name : String

-- CPU in millicores, memory in bytes.
pub record NodeUtilization : Type 0 where
  pub node_name : String
  pub allocatable_cpu : ℤ
  pub allocatable_ram : ℤ
  pub requested_cpu : ℤ
  pub requested_ram : ℤ
  pub labels : Dict String
  pub taints : List Taint
  pub pods : List Pod
