-- ===== src/Policy.antt =====
-- api/v1alpha1/scalingpolicy_types.go and conditions_consts.go: the spec and the status of a
-- ScalingPolicy. A pointer that may be nil is an `Option`; times and durations are nanoseconds.
use vpsie_k8s_capi_autoscale.Base.{ℤ, String, Bool, Option, List}

pub record ObjectReference : Type 0 where
  pub name : String
  pub namespace : String

pub record CredentialsRef : Type 0 where
  pub name : String
  pub namespace : String

pub record ResourceConstraints : Type 0 where
  pub min_cpu : ℤ
  pub max_cpu : ℤ
  pub min_ram : ℤ
  pub max_ram : ℤ
  pub min_ssd : ℤ
  pub excluded_plans : List String

pub record RebalancingSpec : Type 0 where
  pub enabled : Bool
  pub cooldown_period : Option ℤ
  pub max_concurrent_replacements : ℤ
  pub min_savings_percent : ℤ

pub record UtilizationSpec : Type 0 where
  pub scale_up_threshold : ℤ
  pub scale_down_threshold : ℤ

pub record HorizontalSpec : Type 0 where
  pub enabled : Bool
  pub min_replicas : ℤ
  pub max_replicas : ℤ
  pub scale_down_stabilization : Option ℤ

pub record NodePoolPolicy : Type 0 where
  pub enabled : Bool
  pub max_pools : ℤ
  pub scale_down_delay : Option ℤ

pub record NodePoolStatus : Type 0 where
  pub name : String
  pub plan_id : String
  pub plan_nickname : String
  pub replicas : ℤ
  pub last_pod_seen : Option ℤ

-- The aggressiveness is a string in the source too.
pub record ScalingPolicySpec : Type 0 where
  pub target_ref : ObjectReference
  pub credentials_ref : Option CredentialsRef
  pub dc_identifier : String
  pub os_identifier : String
  pub allowed_categories : List String
  pub constraints : ResourceConstraints
  pub aggressiveness : String
  pub rebalancing : RebalancingSpec
  pub target_utilization : UtilizationSpec
  pub horizontal : HorizontalSpec
  pub node_pool_policy : Option NodePoolPolicy
  pub dry_run : Bool
  pub plan_refresh_interval : Option ℤ

-- The fields of `ScalingPolicyStatus` by which one pass of the controller steers the next ones.
pub record ScalingPolicyStatus : Type 0 where
  pub last_rebalance_time : Option ℤ
  pub pending_pods : ℤ
  pub current_replicas : ℤ
  pub desired_replicas : ℤ
  pub last_scale_time : Option ℤ
  pub draining_node : String
  pub draining_started_at : Option ℤ
  pub previous_infra_template : String
  pub node_pools : List NodePoolStatus
