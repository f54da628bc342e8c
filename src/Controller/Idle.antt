-- ===== src/Controller/Idle.antt =====
-- In a dry run the passes of `Reconcile` (internal/controller/scalingpolicy_controller.go and
-- internal/controller/nodepool.go) begin nothing that a later pass would have to end.
use Prim.Native.Char.{Char}
use vpsie_k8s_capi_autoscale.Base.{
  ℤ, pos, ◌≡◌, refl, String, Bool, true, Option, none, some, List, [], ◌∷◌, Dict, arith, string_eq,
}
use vpsie_k8s_capi_autoscale.Cluster.{Node}
use vpsie_k8s_capi_autoscale.Float.{Float64}
use vpsie_k8s_capi_autoscale.Plan.{Plan}
use vpsie_k8s_capi_autoscale.Policy.{NodePoolStatus, ScalingPolicySpec}
use vpsie_k8s_capi_autoscale.World.{Env, get_non_system_pod_count}
use vpsie_k8s_capi_autoscale.Pricing.Cache.{Cache, plans_of}
use vpsie_k8s_capi_autoscale.PlanSwitch.{MachineTemplate}
use vpsie_k8s_capi_autoscale.Utilization.Thresholds.{UtilizationResult}
use vpsie_k8s_capi_autoscale.Horizontal.Pass.{Pass, Outcome, call}
use vpsie_k8s_capi_autoscale.Horizontal.Rollout.{await_rollout}
use vpsie_k8s_capi_autoscale.Horizontal.ScaleUp.{scale_up}
use vpsie_k8s_capi_autoscale.Horizontal.ScaleDown.{scale_down}
use vpsie_k8s_capi_autoscale.Horizontal.Reconcile.{reconcile_horizontal}
use vpsie_k8s_capi_autoscale.Horizontal.Cases.{
  asked, with_pending_cases, reconcile_horizontal_cases,
}
use vpsie_k8s_capi_autoscale.NodePool.Groups.{PlanGroup, group_by_plan, oversized}
use vpsie_k8s_capi_autoscale.NodePool.Cleanup.{
  count_pods, age_pool, weigh_pool, inspect_pool, inspect_pools, cleanup_node_pools,
}
use vpsie_k8s_capi_autoscale.NodePool.Inspection.{inspect_pool_cases}
use vpsie_k8s_capi_autoscale.NodePool.Cases.{listed, reconcile_node_pools_cases}
use vpsie_k8s_capi_autoscale.NodePool.Pools.{
  grow_satellite, open_satellite, serve_group, serve_groups, serve_pods, reconcile_node_pools,
  max_pools_of,
}
use vpsie_k8s_capi_autoscale.Controller.DryRun.{IsIdle}

await_rollout-IsIdle :
    (env : Env) (p : Pass) → IsIdle p.status → IsIdle (await_rollout env p).0.status
unfolding await_rollout
await_rollout-IsIdle env p (a, b) = (ground arith, ground arith)

scale_up-IsIdle :
    (env : Env) (is_dry : Bool) (max current : ℤ) (p : Pass)
    → IsIdle p.status
    → IsIdle (scale_up env is_dry max current p).0.status
unfolding scale_up
scale_up-IsIdle env is_dry max current p (a, b) = (ground arith, ground arith)

scale_down-IsIdle :
    {F : Type 0} ⦃f : Float64 F⦄ (env : Env) (spec : ScalingPolicySpec)
    (util : Option (UtilizationResult F)) (min current : ℤ) (p : Pass)
    → spec.dry_run ≡ true
    → IsIdle p.status
    → IsIdle (scale_down env spec util min current p).0.status
unfolding scale_down
scale_down-IsIdle env spec none min current p dry (a, b) = (ground arith, ground arith)
scale_down-IsIdle env spec (some u) min current p dry (a, b) = (ground arith, ground arith)

pub reconcile_horizontal-IsIdle :
    {F : Type 0} ⦃f : Float64 F⦄ (env : Env) (spec : ScalingPolicySpec) (cluster_name : String)
    (util : Option (UtilizationResult F)) (plan : Option (Plan F)) (p : Pass)
    → spec.dry_run ≡ true
    → IsIdle p.status
    → IsIdle (reconcile_horizontal env spec cluster_name util plan p).0.status
reconcile_horizontal-IsIdle env spec cluster_name util plan p dry (a, b) =
    let P : Outcome → Type 0 = λ o. IsIdle o.0.status in
    reconcile_horizontal_cases P env spec cluster_name util plan p (a, b) (λ _. (a, b))
      (λ _. (a, b))
      λ pods.
        with_pending_cases P env spec util _ (asked cluster_name p) (λ busy. absurd (busy a))
          (λ _ _. await_rollout-IsIdle env _ (a, b))
          (λ _ _. scale_down-IsIdle env spec util _ _ _ dry (a, refl))
          (λ _ _ _. scale_up-IsIdle env spec.dry_run _ _ _ (a, refl))

count_pods-IsIdle :
    (env : Env) (nodes : List Node) (total : ℤ) (p : Pass)
    → IsIdle p.status
    → IsIdle (count_pods env nodes total p).0.status
unfolding count_pods
count_pods-IsIdle env [] total p h = h
count_pods-IsIdle env (n ∷ ns) total p h =
    count_pods-IsIdle env ns _ (call (get_non_system_pod_count n.name) p) h

weigh_pool-IsIdle :
    (env : Env) (spec : ScalingPolicySpec) (namespace : String) (pool : NodePoolStatus)
    (nodes : List Node) (p : Pass)
    → IsIdle p.status
    → IsIdle (weigh_pool env spec namespace pool nodes p).0.status
unfolding weigh_pool age_pool
weigh_pool-IsIdle env spec namespace pool nodes p h =
    let (a, b) = count_pods-IsIdle env nodes (pos 0) p h in (ground arith, ground arith)

inspect_pools-IsIdle :
    (env : Env) (spec : ScalingPolicySpec) (namespace : String) (pools : List NodePoolStatus)
    (p : Pass)
    → IsIdle p.status
    → IsIdle (inspect_pools env spec namespace pools p).0.status
unfolding inspect_pools
inspect_pools-IsIdle env spec namespace [] p h = h
inspect_pools-IsIdle env spec namespace (pool ∷ pools) p h =
    inspect_pools-IsIdle env spec namespace pools (inspect_pool env spec namespace pool p).0 (
      inspect_pool_cases (λ o. IsIdle o.0.status) env spec namespace pool p (λ _. h) (λ _. h)
        (λ nodes. weigh_pool-IsIdle env spec namespace pool nodes _ h))

cleanup_node_pools-IsIdle :
    (env : Env) (spec : ScalingPolicySpec) (namespace : String) (p : Pass)
    → IsIdle p.status
    → IsIdle (cleanup_node_pools env spec namespace p).status
unfolding cleanup_node_pools
cleanup_node_pools-IsIdle env spec namespace p h =
    inspect_pools-IsIdle env spec namespace p.status.node_pools p h

module _ {F K : Type 0} (lower_rune : Char → Char) (env : Env) (spec : ScalingPolicySpec)
    (dry : spec.dry_run ≡ true) where
  serve_group-IsIdle :
      (max_pools : ℤ) (template : MachineTemplate K) (g : PlanGroup F) (p : Pass)
      → IsIdle p.status
      → IsIdle (serve_group lower_rune env spec max_pools template g p).status
  unfolding serve_group open_satellite grow_satellite
  serve_group-IsIdle max_pools template g p (a, b) = (ground arith, ground arith)

  serve_groups-IsIdle :
      (max_pools : ℤ) (template : MachineTemplate K) (groups : List (String × PlanGroup F))
      (p : Pass)
      → IsIdle p.status
      → IsIdle (serve_groups lower_rune env spec max_pools template groups p).status
  unfolding serve_groups
  serve_groups-IsIdle max_pools template [] p h = h
  serve_groups-IsIdle max_pools template ((k, g) ∷ groups) p h =
      serve_groups-IsIdle max_pools template groups
        (serve_group lower_rune env spec max_pools template g p)
        (serve_group-IsIdle max_pools template g p h)

pub reconcile_node_pools-IsIdle :
    {F K : Type 0} ⦃f : Float64 F⦄ (lower_rune : Char → Char)
    (range : Dict (PlanGroup F) → List (String × PlanGroup F)) (env : Env)
    (spec : ScalingPolicySpec) (cache : Cache F) (cluster_name : String) (plan : Option (Plan F))
    (template : Option (MachineTemplate K)) (p : Pass)
    → spec.dry_run ≡ true
    → IsIdle p.status
    → IsIdle
        (reconcile_node_pools lower_rune range env spec cache cluster_name plan template p).0.status
unfolding serve_pods
reconcile_node_pools-IsIdle lower_rune range env spec cache cluster_name plan template p dry h =
    reconcile_node_pools_cases lower_rune range (λ q. IsIdle q.status) env spec cache cluster_name
      plan template p h h h
      (λ policy current t pods _.
        let groups = range (
          group_by_plan (plans_of lower_rune cache spec.allowed_categories) spec.constraints
            (oversized current pods) []) in
        let served =
          serve_groups lower_rune env spec (max_pools_of policy) t groups (listed cluster_name p) in
        cleanup_node_pools-IsIdle env spec served.deployment.namespace served (
          serve_groups-IsIdle lower_rune env spec dry (max_pools_of policy) t groups
            (listed cluster_name p) h))
