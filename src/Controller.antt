-- ===== src/Controller.antt =====
-- internal/controller/scalingpolicy_controller.go: the state of the controller, and what it reads of
-- the management cluster.
pub mod Credentials
pub mod Prices
pub mod Choice
pub mod Conclude
pub mod Reconcile
pub mod Reads
pub mod DryRun
pub mod Idle
pub mod Ending
pub mod Panics
pub mod Requeue
pub mod Bound
pub mod Stale
pub mod Watch
use vpsie_k8s_capi_autoscale.Base.{ℤ, String, Option, List, Dict, Result}
use vpsie_k8s_capi_autoscale.Plan.{Plan}
use vpsie_k8s_capi_autoscale.Policy.{ScalingPolicySpec, ScalingPolicyStatus}
use vpsie_k8s_capi_autoscale.World.{Calls, Lookup, MachineDeployment}
use vpsie_k8s_capi_autoscale.Pricing.Cache.{Cache, PricingClient}
use vpsie_k8s_capi_autoscale.PlanSwitch.{MachineTemplate}

-- api/v1alpha1/scalingpolicy_types.go
pub data Phase : Type 0 where
  phase_none phase_active phase_rebalancing phase_dry_run phase_error : Phase

pub record UtilizationStatus : Type 0 where
  pub cpu_percent : ℤ
  pub memory_percent : ℤ
  pub source : String
  pub last_updated : ℤ

pub record PlanInfo (F : Type 0) : Type 0 where
  pub identifier : String
  pub nickname : String
  pub cpu : ℤ
  pub ram : ℤ
  pub ssd : ℤ
  pub price_monthly : F

-- The fields of the status that only report. The savings stand as the number that is written.
pub record Report (F : Type 0) : Type 0 where
  pub current_plan : Option (PlanInfo F)
  pub recommended_plan : Option (PlanInfo F)
  pub available_categories : List String
  pub last_plan_refresh_time : Option ℤ
  pub current_utilization : Option UtilizationStatus
  pub estimated_monthly_savings : Option F
  pub phase : Phase

-- A ScalingPolicy, its status in two parts.
pub record Policy (F : Type 0) : Type 0 where
  pub name : String
  pub namespace : String
  pub uid : String
  pub spec : ScalingPolicySpec
  pub status : ScalingPolicyStatus
  pub report : Report F

-- A VPSieCluster of the infrastructure provider.
pub record VpsieCluster : Type 0 where
  pub namespace : String
  pub credentials_name : String
  pub credentials_namespace : String

-- The objects that the calls find, and the client of the VPSie API for a key.
pub record Objects (F K : Type 0) : Type 0 where
  pub policy : Calls → Lookup (Policy F)
  pub policies : Calls → Result (List (Policy F))
  pub target : Calls → Lookup MachineDeployment
  pub template : Calls → Lookup (MachineTemplate K)
  pub secret : Calls → Lookup (Dict String)
  pub vpsie_cluster : Calls → Lookup VpsieCluster
  pub new_pricing_client : String → Result (Unit {0})
  pub prices : String → Calls → PricingClient F

-- A pricing cache, with the key that its client was made for.
pub record PriceSource (F : Type 0) : Type 0 where
  pub api_key : String
  pub cache : Cache F

-- `r.caches`, by the UID of the policy.
abbrev pub Caches : Type 0 → Type 0
Caches F = Dict (PriceSource F)

abbrev pub plan_info : {F : Type 0} → Plan F → PlanInfo F
plan_info p = record {
  identifier = p.identifier;
  nickname = p.nickname;
  cpu = p.cpu;
  ram = p.ram;
  ssd = p.ssd;
  price_monthly = p.price_monthly;
}
