-- ===== src/NodePool/DryRun.antt =====
-- What `reconcileNodePools` of internal/controller/nodepool.go does in a dry run.
use Prim.Native.Char.{Char}
use vpsie_k8s_capi_autoscale.Base.{ℤ, ◌≡◌, String, true, Option, List, [], ◌∷◌, Dict, All, arith}
use vpsie_k8s_capi_autoscale.Float.{Float64}
use vpsie_k8s_capi_autoscale.Plan.{Plan}
use vpsie_k8s_capi_autoscale.Policy.{ScalingPolicySpec}
use vpsie_k8s_capi_autoscale.World.{Env}
use vpsie_k8s_capi_autoscale.Pricing.Cache.{Cache, plans_of}
use vpsie_k8s_capi_autoscale.PlanSwitch.{MachineTemplate}
use vpsie_k8s_capi_autoscale.Horizontal.Pass.{Pass}
use vpsie_k8s_capi_autoscale.Horizontal.DryRun.{IsReadOnly}
use vpsie_k8s_capi_autoscale.NodePool.Inspection.{cleanup_node_pools-IsReadOnly}
use vpsie_k8s_capi_autoscale.NodePool.Groups.{PlanGroup, group_by_plan, oversized}
use vpsie_k8s_capi_autoscale.NodePool.Cases.{listed, reconcile_node_pools_cases}
use vpsie_k8s_capi_autoscale.NodePool.Pools.{
  grow_satellite, open_satellite, serve_group, serve_groups, serve_pods, reconcile_node_pools,
  max_pools_of,
}

module _ {F K : Type 0} (lower_rune : Char → Char) (env : Env) (spec : ScalingPolicySpec)
    (dry : spec.dry_run ≡ true) where
  serve_group-IsReadOnly :
      (max_pools : ℤ) (template : MachineTemplate K) (g : PlanGroup F) (p : Pass)
      → All IsReadOnly p.calls
      → All IsReadOnly (serve_group lower_rune env spec max_pools template g p).calls
  unfolding serve_group open_satellite grow_satellite
  serve_group-IsReadOnly max_pools template g p h = ground arith

  serve_groups-IsReadOnly :
      (max_pools : ℤ) (template : MachineTemplate K) (groups : List (String × PlanGroup F))
      (p : Pass)
      → All IsReadOnly p.calls
      → All IsReadOnly (serve_groups lower_rune env spec max_pools template groups p).calls
  unfolding serve_groups
  serve_groups-IsReadOnly max_pools template [] p h = h
  serve_groups-IsReadOnly max_pools template ((k, g) ∷ groups) p h =
      serve_groups-IsReadOnly max_pools template groups
        (serve_group lower_rune env spec max_pools template g p)
        (serve_group-IsReadOnly max_pools template g p h)

module _ {F K : Type 0} ⦃f : Float64 F⦄ (lower_rune : Char → Char)
    (range : Dict (PlanGroup F) → List (String × PlanGroup F)) where
  -- In a dry run a pass over the node pools creates, resizes and deletes nothing, and makes no other
  -- call that changes a cluster. Condition: so it was with the calls before.
  pub reconcile_node_pools-IsReadOnly :
      (env : Env) (spec : ScalingPolicySpec) (cache : Cache F) (cluster_name : String)
      (plan : Option (Plan F)) (template : Option (MachineTemplate K)) (p : Pass)
      → spec.dry_run ≡ true
      → All IsReadOnly p.calls
      → All IsReadOnly
          (reconcile_node_pools lower_rune range env spec cache cluster_name plan template
            p).0.calls
  unfolding serve_pods
  reconcile_node_pools-IsReadOnly env spec cache cluster_name plan template p dry h =
      reconcile_node_pools_cases lower_rune range (λ q. All IsReadOnly q.calls) env spec cache
        cluster_name plan template p h (tt, h) (tt, (tt, h))
        (λ policy current t pods _.
          let groups = range (
            group_by_plan (plans_of lower_rune cache spec.allowed_categories) spec.constraints
              (oversized current pods) []) in
          let served =
            serve_groups lower_rune env spec (max_pools_of policy) t groups
              (listed cluster_name p) in
          cleanup_node_pools-IsReadOnly env spec served.deployment.namespace served dry (
            serve_groups-IsReadOnly lower_rune env spec dry (max_pools_of policy) t groups
              (listed cluster_name p) (tt, (tt, h))))
