-- ===== src/World.antt =====
-- What the controller asks of the clusters: every call that it makes, in the order in which it
-- makes them, and the answers. A handler carries the calls made so far, the newest first, and the
-- answer to a call may depend on all of them, so any clusters that change between the calls are
-- covered. Written texts, Prometheus metrics and logs are left out.
use vpsie_k8s_capi_autoscale.Base.{
  ℤ, ◌≡◌, ◌⊎◌, inl, inr, refl, String, Bool, Option, List, Dict, Result,
}
use vpsie_k8s_capi_autoscale.Cluster.{Pod, Node, NodeMetrics}
use vpsie_k8s_capi_autoscale.Scheduler.Matching.{ParseQuantity}
use vpsie_k8s_capi_autoscale.Scheduler.Packing.{SortSlice}

-- api/v1alpha1/conditions_consts.go, and the reason `SwitchFailed` of internal/controller/rebalancer.go
pub data ConditionType : Type 0 where
  pricing_data_ready target_resolved plan_selected rebalancing utilization_ready : ConditionType
  scheduling_simulation horizontal_scaling node_pool : ConditionType

pub data ConditionReason : Type 0 where
  pricing_fetch_failed pricing_data_loaded target_not_found target_found : ConditionReason
  credentials_not_found no_better_plan better_plan_found plan_switched dry_run : ConditionReason
  rebalancing_in_progress rebalancing_complete rollout_in_progress : ConditionReason
  insufficient_replicas cooldown_active workload_access_failed : ConditionReason
  utilization_calculated metrics_unavailable scale_up_triggered : ConditionReason
  scale_down_triggered scale_down_blocked utilization_in_range scale_up_replicas : ConditionReason
  scale_down_replicas max_replicas_reached min_replicas_reached : ConditionReason
  stabilization_active no_pending_pods drain_in_progress drain_timeout : ConditionReason
  drain_aborted rollout_stalled template_reverted node_pool_created : ConditionReason
  node_pool_deleted node_pool_scale_up max_pools_reached oversized_pods : ConditionReason
  no_fitting_plan switch_failed : ConditionReason

-- The part of a MachineDeployment (cluster-api v1beta2) that the program reads and writes.
-- `bootstrap` stands for what is copied whole: the bootstrap configuration, and the API group and the
-- kind of the infrastructure reference.
pub record MachineDeployment : Type 0 where
  pub name : String
  pub namespace : String
  pub labels : Dict String
  pub cluster_name : String
  pub match_labels : Dict String
  pub bootstrap : String
  pub replicas : Option ℤ
  pub infrastructure_name : String
  pub deprecated_ready_replicas : Option ℤ
  pub ready_replicas : Option ℤ
  pub up_to_date_replicas : Option ℤ
  pub status_replicas : Option ℤ

-- The calls of `WorkloadClient` (internal/workload/client.go), of the Kubernetes client of the
-- management cluster, of the event recorder, and of `meta.SetStatusCondition`.
pub data Call : Type 0 where
  client_for_cluster : String → String → Call
  list_nodes : String → Call
  list_pods : List String → Call
  get_node_metrics : List String → Call
  list_pending_pods : Call
  cordon_node uncordon_node drain_node get_non_system_pod_count : String → Call
  get_policy get_target get_secret get_vpsie_cluster : String → String → Call
  update_status ensure_fresh_prices : Call
  list_policies : String → Call
  get_deployment : String → Call
  patch_replicas : String → ℤ → Call
  patch_infrastructure : String → String → Call
  get_template : String → String → Call
  create_template : String → String → String → Call
  create_deployment : MachineDeployment → Call
  delete_deployment delete_template : String → Call
  set_condition : ConditionType → Bool → ConditionReason → Call
  record_event : String → Call

-- What `Get` of an object answers: `IsNotFound` tells an absent one from other errors.
pub data ObjectLookup : Type 0 where
  present absent : ObjectLookup
  unreadable : String → ObjectLookup

pub ObjectLookup-cases :
    (o : ObjectLookup) → (o ≡ present) ⊎ (o ≡ absent) ⊎ ((e : String) × (o ≡ unreadable e))
ObjectLookup-cases present = inl refl
ObjectLookup-cases absent = inr (inl refl)
ObjectLookup-cases (unreadable e) = inr (inr (e, refl))

-- The same with the object that was found, or the text of the error.
pub data Lookup (A : Type 0) : Type 0 where
  found : A → Lookup A
  missing unknown : String → Lookup A

pub Lookup-cases :
    {A : Type 0} (l : Lookup A)
    → ((a : A) × (l ≡ found a))
      ⊎ ((e : String) × (l ≡ missing e))
      ⊎ ((e : String) × (l ≡ unknown e))
Lookup-cases (found a) = inl (a, refl)
Lookup-cases (missing e) = inr (inl (e, refl))
Lookup-cases (unknown e) = inr (inr (e, refl))

abbrev pub Calls : Type 0
Calls = List Call

-- The answers (a deletion of what is not there succeeds, as the code takes it), the
-- MachineDeployment that was found, the clock, and the two library functions that the simulator takes.
pub record Env : Type 0 where
  pub clock : Calls → ℤ
  pub has_workload_clients : Bool
  pub connect : Calls → Result (Unit {0})
  pub nodes : Calls → Result (List Node)
  pub pods : Calls → Result (List Pod)
  pub node_metrics : Calls → Result (List NodeMetrics)
  pub pending_pods : Calls → Result (List Pod)
  pub cordoned : Calls → Result (Unit {0})
  pub uncordoned : Calls → Result (Unit {0})
  pub drained : Calls → Result ℤ
  pub pod_count : Calls → Result ℤ
  pub patched : Calls → Result (Unit {0})
  pub template_found : Calls → ObjectLookup
  pub created : Calls → Result (Unit {0})
  pub deployment_found : Calls → ObjectLookup
  pub deployment_read : Calls → MachineDeployment
  pub deleted : Calls → Result (Unit {0})
  pub updated : Calls → Result (Unit {0})
  pub parse_quantity : ParseQuantity
  pub sort_slice : SortSlice
