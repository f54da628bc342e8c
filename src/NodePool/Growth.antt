-- ===== src/NodePool/Growth.antt =====
-- What `reconcileNodePools` of internal/controller/nodepool.go does to the satellites that there are.
use Prim.Native.Char.{Char}
use vpsie_k8s_capi_autoscale.Base.{
  ℤ, pos, add32, add32-below, InInt32, ◌≤ℤ◌, leb_ℤ, ◌≡◌, refl, String, Option, List, [], ◌∷◌, Dict,
  All, Bool-cases, arith, string_eq, inl, inr,
}
use vpsie_k8s_capi_autoscale.Cluster.{Node}
use vpsie_k8s_capi_autoscale.Float.{Float64}
use vpsie_k8s_capi_autoscale.Plan.{Plan}
use vpsie_k8s_capi_autoscale.Policy.{NodePoolStatus, ScalingPolicySpec}
use vpsie_k8s_capi_autoscale.World.{
  Call, Env, MachineDeployment, get_deployment, get_non_system_pod_count, patch_replicas,
}
use vpsie_k8s_capi_autoscale.Pricing.Cache.{Cache, plans_of}
use vpsie_k8s_capi_autoscale.PlanSwitch.{MachineTemplate}
use vpsie_k8s_capi_autoscale.Horizontal.Pass.{Pass, call, current_replicas_of, max_replicas_of}
use vpsie_k8s_capi_autoscale.NodePool.Cleanup.{
  count_pods, weigh_pool, age_pool, delete_pool, drop_template, inspect_pool, inspect_pools,
  cleanup_node_pools,
}
use vpsie_k8s_capi_autoscale.NodePool.Inspection.{inspect_pool_cases}
use vpsie_k8s_capi_autoscale.NodePool.Groups.{PlanGroup, group_by_plan, oversized}
use vpsie_k8s_capi_autoscale.NodePool.Satellite.{
  satellite_md_name, create_satellite, create_satellite_objects, create_satellite_md,
  satellite_template, satellite_deployment,
}
use vpsie_k8s_capi_autoscale.NodePool.Cases.{listed, reconcile_node_pools_cases}
use vpsie_k8s_capi_autoscale.NodePool.Pools.{
  scale_satellite, grow_satellite, note_pool, add_satellite, open_satellite, serve_group,
  serve_groups, serve_pods, reconcile_node_pools, max_pools_of,
}

-- No MachineDeployment is resized above the maximum.
abbrev pub IsWithinMax : ℤ → Call → Type 0
IsWithinMax max (patch_replicas _ n) = n ≤ℤ max
IsWithinMax max _ = Unit

module _ (max : ℤ) where
  count_pods-IsWithinMax :
      (env : Env) (nodes : List Node) (total : ℤ) (p : Pass)
      → All (IsWithinMax max) p.calls
      → All (IsWithinMax max) (count_pods env nodes total p).0.calls
  unfolding count_pods
  count_pods-IsWithinMax env [] total p h = h
  count_pods-IsWithinMax env (n ∷ ns) total p h =
      count_pods-IsWithinMax env ns _ (call (get_non_system_pod_count n.name) p) (tt, h)

  weigh_pool-IsWithinMax :
      (env : Env) (spec : ScalingPolicySpec) (namespace : String) (pool : NodePoolStatus)
      (nodes : List Node) (p : Pass)
      → All (IsWithinMax max) p.calls
      → All (IsWithinMax max) (weigh_pool env spec namespace pool nodes p).0.calls
  unfolding weigh_pool age_pool delete_pool drop_template
  weigh_pool-IsWithinMax env spec namespace pool nodes p h =
      let counted = count_pods-IsWithinMax env nodes (pos 0) p h in ground arith

  inspect_pools-IsWithinMax :
      (env : Env) (spec : ScalingPolicySpec) (namespace : String) (pools : List NodePoolStatus)
      (p : Pass)
      → All (IsWithinMax max) p.calls
      → All (IsWithinMax max) (inspect_pools env spec namespace pools p).0.calls
  unfolding inspect_pools
  inspect_pools-IsWithinMax env spec namespace [] p h = h
  inspect_pools-IsWithinMax env spec namespace (pool ∷ pools) p h =
      inspect_pools-IsWithinMax env spec namespace pools (inspect_pool env spec namespace pool p).0
        (inspect_pool_cases (λ o. All (IsWithinMax max) o.0.calls) env spec namespace pool p
          (λ _. (tt, h)) (λ _. (tt, (tt, h)))
          (λ nodes. weigh_pool-IsWithinMax env spec namespace pool nodes _ (tt, (tt, h))))

  cleanup_node_pools-IsWithinMax :
      (env : Env) (spec : ScalingPolicySpec) (namespace : String) (p : Pass)
      → All (IsWithinMax max) p.calls
      → All (IsWithinMax max) (cleanup_node_pools env spec namespace p).calls
  unfolding cleanup_node_pools
  cleanup_node_pools-IsWithinMax env spec namespace p h =
      inspect_pools-IsWithinMax env spec namespace p.status.node_pools p h

  create_satellite_objects-IsWithinMax :
      {K : Type 0} (env : Env) (t : MachineTemplate K) (md : MachineDeployment) (p : Pass)
      → All (IsWithinMax max) p.calls
      → All (IsWithinMax max) (create_satellite_objects env t md p).0.calls
  unfolding create_satellite_objects create_satellite
  create_satellite_objects-IsWithinMax env t md p h = ground arith

-- No satellite that is read has a number of replicas outside `int32`.
abbrev pub HasInt32Replicas : Env → Type 0
HasInt32Replicas env =
    (calls : List Call) → InInt32 (current_replicas_of (env.deployment_read calls))

module _ (max : ℤ) where
  grow_satellite-IsWithinMax :
      (env : Env) (spec : ScalingPolicySpec) (name : String) (satellite : MachineDeployment)
      (p : Pass)
      → InInt32 max
      → max_replicas_of spec.horizontal ≡ max
      → InInt32 (current_replicas_of satellite)
      → All (IsWithinMax max) p.calls
      → All (IsWithinMax max) (grow_satellite env spec name satellite p).calls
  unfolding grow_satellite scale_satellite
  grow_satellite-IsWithinMax env spec name satellite p m e c h =
      elim (Bool-cases (leb_ℤ max (current_replicas_of satellite))) [
        | inl full ↦ ground arith
        | inr below ↦
            let (exact, top) = add32-below max (current_replicas_of satellite) m c below in
            let small : add32 (current_replicas_of satellite) (pos 1) ≤ℤ max = rw exact top in
            ground arith
      ]

abbrev IsKept : ScalingPolicySpec → Pass → Type 0
IsKept spec p = All (IsWithinMax (max_replicas_of spec.horizontal)) p.calls

module _ {F K : Type 0} (lower_rune : Char → Char) (env : Env) (spec : ScalingPolicySpec)
    (m : InInt32 (max_replicas_of spec.horizontal)) (r : HasInt32Replicas env) where
  open_satellite-IsKept :
      (max_pools : ℤ) (name : String) (template : MachineTemplate K) (plan : Plan F) (p : Pass)
      → IsKept spec p
      → IsKept spec (open_satellite lower_rune env spec max_pools name template plan p)
  unfolding open_satellite add_satellite note_pool create_satellite_md
  open_satellite-IsKept max_pools name template plan p h =
      let made =
        create_satellite_objects-IsWithinMax (max_replicas_of spec.horizontal) env
          (satellite_template lower_rune p.deployment template plan)
          (satellite_deployment lower_rune p.deployment plan) p h in
      ground arith

  serve_group-IsKept :
      (max_pools : ℤ) (template : MachineTemplate K) (g : PlanGroup F) (p : Pass)
      → IsKept spec p
      → IsKept spec (serve_group lower_rune env spec max_pools template g p)
  unfolding serve_group
  serve_group-IsKept max_pools template g p h =
      let name = satellite_md_name lower_rune p.deployment.name g.plan.nickname in
      let q = call (get_deployment name) p in
      let opened = open_satellite-IsKept max_pools name template g.plan q (tt, h) in
      let grown =
        grow_satellite-IsWithinMax (max_replicas_of spec.horizontal) env spec name
          (env.deployment_read q.calls) q m refl (r q.calls) (tt, h) in
      ground arith

  serve_groups-IsKept :
      (max_pools : ℤ) (template : MachineTemplate K) (groups : List (String × PlanGroup F))
      (p : Pass)
      → IsKept spec p
      → IsKept spec (serve_groups lower_rune env spec max_pools template groups p)
  unfolding serve_groups
  serve_groups-IsKept max_pools template [] p h = h
  serve_groups-IsKept max_pools template ((k, g) ∷ groups) p h =
      serve_groups-IsKept max_pools template groups
        (serve_group lower_rune env spec max_pools template g p)
        (serve_group-IsKept max_pools template g p h)

module _ {F K : Type 0} ⦃f : Float64 F⦄ (lower_rune : Char → Char)
    (range : Dict (PlanGroup F) → List (String × PlanGroup F)) where
  -- A pass over the node pools resizes no MachineDeployment above `maxReplicas` (10, if it is not
  -- positive), whatever the clusters answer. Conditions: `maxReplicas` and the numbers of replicas that
  -- are read are 32-bit numbers, and the calls before the pass did not either.
  pub reconcile_node_pools-IsWithinMax :
      (env : Env) (spec : ScalingPolicySpec) (cache : Cache F) (cluster_name : String)
      (plan : Option (Plan F)) (template : Option (MachineTemplate K)) (p : Pass)
      → InInt32 (max_replicas_of spec.horizontal)
      → HasInt32Replicas env
      → All (IsWithinMax (max_replicas_of spec.horizontal)) p.calls
      → All
          (IsWithinMax (max_replicas_of spec.horizontal))
          (reconcile_node_pools lower_rune range env spec cache cluster_name plan template
            p).0.calls
  unfolding serve_pods
  reconcile_node_pools-IsWithinMax env spec cache cluster_name plan template p m r h =
      reconcile_node_pools_cases lower_rune range
        (λ q. All (IsWithinMax (max_replicas_of spec.horizontal)) q.calls) env spec cache
        cluster_name plan template p h (tt, h) (tt, (tt, h))
        (λ policy current t pods _.
          let groups = range (
            group_by_plan (plans_of lower_rune cache spec.allowed_categories) spec.constraints
              (oversized current pods) []) in
          let served =
            serve_groups lower_rune env spec (max_pools_of policy) t groups
              (listed cluster_name p) in
          cleanup_node_pools-IsWithinMax (max_replicas_of spec.horizontal) env spec
            served.deployment.namespace served
            (serve_groups-IsKept lower_rune env spec m r (max_pools_of policy) t groups
              (listed cluster_name p) (tt, (tt, h))))
