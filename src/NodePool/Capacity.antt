-- ===== src/NodePool/Capacity.antt =====
-- How many satellites `reconcileNodePools` of internal/controller/nodepool.go leads to.
use Prim.Native.Char.{Char}
use mathlib.Core.Path.{subst}
use vpsie_k8s_capi_autoscale.Base.{
  ℕ, suc, ◌≤◌, ℤ, pos, add32, leb_ℤ, leb_ℤ→lt, ◌≤ℤ◌, ◌≡◌, sym, inl, inr, String, Option, none, some,
  List, [], ◌∷◌, Dict, length, length-append, Bool-cases, arith, string_eq,
}
use vpsie_k8s_capi_autoscale.Float.{Float64}
use vpsie_k8s_capi_autoscale.Plan.{Plan}
use vpsie_k8s_capi_autoscale.Policy.{NodePoolPolicy, NodePoolStatus, ScalingPolicySpec}
use vpsie_k8s_capi_autoscale.World.{
  Env, MachineDeployment, get_deployment, patch_replicas, client_for_cluster, list_pending_pods,
}
use vpsie_k8s_capi_autoscale.Pricing.Cache.{Cache, plans_of}
use vpsie_k8s_capi_autoscale.PlanSwitch.{MachineTemplate}
use vpsie_k8s_capi_autoscale.Horizontal.Pass.{Pass, call, event, now, current_replicas_of}
use vpsie_k8s_capi_autoscale.NodePool.Cleanup.{
  inspect_pool, inspect_pools, with_kept, cleanup_node_pools,
}
use vpsie_k8s_capi_autoscale.NodePool.Groups.{PlanGroup, group_by_plan, oversized}
use vpsie_k8s_capi_autoscale.NodePool.Satellite.{
  satellite_md_name, create_satellite, create_satellite_objects, create_satellite_md,
  satellite_template, satellite_deployment,
}
use vpsie_k8s_capi_autoscale.NodePool.Cases.{reconcile_node_pools_cases}
use vpsie_k8s_capi_autoscale.NodePool.Pools.{
  update_node_pool_replicas, scale_satellite, grow_satellite, note_pool, new_pool, add_satellite,
  open_satellite, serve_group, serve_groups, serve_pods, reconcile_node_pools, max_pools_of,
}

abbrev pools : Pass → ℕ
pools p = length p.status.node_pools

length-with_kept :
    (o : Option NodePoolStatus) (l : List NodePoolStatus) → length (with_kept o l) ≤ suc (length l)
length-with_kept none l = omega arith
length-with_kept (some x) l = omega arith

length-inspect_pools-le :
    (env : Env) (spec : ScalingPolicySpec) (namespace : String) (l : List NodePoolStatus) (p : Pass)
    → length (inspect_pools env spec namespace l p).1 ≤ length l
unfolding inspect_pools
length-inspect_pools-le env spec namespace [] p = omega arith
length-inspect_pools-le env spec namespace (pool ∷ l) p =
    let q = inspect_pool env spec namespace pool p in
    let rest = length-inspect_pools-le env spec namespace l q.0 in
    let kept = length-with_kept q.1 (inspect_pools env spec namespace l q.0).1 in
    omega (arith, rest, kept)

cleanup_node_pools-pools :
    (env : Env) (spec : ScalingPolicySpec) (namespace : String) (p : Pass)
    → pools (cleanup_node_pools env spec namespace p) ≤ pools p
unfolding cleanup_node_pools
cleanup_node_pools-pools env spec namespace p =
    length-inspect_pools-le env spec namespace p.status.node_pools p

length-update_node_pool_replicas :
    (name : String) (replicas time : ℤ) (l : List NodePoolStatus)
    → length (update_node_pool_replicas name replicas time l) ≡ length l
unfolding update_node_pool_replicas
length-update_node_pool_replicas name replicas time [] = omega arith
length-update_node_pool_replicas name replicas time (pool ∷ l) =
    let rest = length-update_node_pool_replicas name replicas time l in ground arith

grow_satellite-pools :
    (env : Env) (spec : ScalingPolicySpec) (name : String) (satellite : MachineDeployment)
    (p : Pass)
    → pools (grow_satellite env spec name satellite p) ≡ pools p
unfolding grow_satellite scale_satellite
grow_satellite-pools env spec name satellite p =
    let desired = add32 (current_replicas_of satellite) (pos 1) in
    let q = event "NodePoolScaleUp" (call (patch_replicas name desired) p) in
    let same = length-update_node_pool_replicas name desired (now env q) p.status.node_pools in
    ground arith

create_satellite_objects-status :
    {K : Type 0} (env : Env) (t : MachineTemplate K) (md : MachineDeployment) (p : Pass)
    → (create_satellite_objects env t md p).0.status ≡ p.status
unfolding create_satellite_objects create_satellite
create_satellite_objects-status env t md p = ground arith

note_pool-pools :
    {F : Type 0} (env : Env) (name : String) (plan : Plan F) (p : Pass)
    → pools (note_pool env name plan p) ≡ suc (pools p)
unfolding note_pool
note_pool-pools env name plan p =
    let one =
      length-append p.status.node_pools
        (new_pool name plan (now env (event "NodePoolCreated" p)) ∷ []) in
    ground arith

module _ {F K : Type 0} (lower_rune : Char → Char) where
  add_satellite-pools :
      (env : Env) (name : String) (template : MachineTemplate K) (plan : Plan F) (p : Pass)
      → pools (add_satellite lower_rune env name template plan p) ≤ suc (pools p)
  unfolding add_satellite create_satellite_md
  add_satellite-pools env name template plan p =
      let t = satellite_template lower_rune p.deployment template plan in
      let md = satellite_deployment lower_rune p.deployment plan in
      let same = create_satellite_objects-status env t md p in
      let noted = note_pool-pools env name plan (create_satellite_objects env t md p).0 in
      ground arith

  open_satellite-pools :
      (env : Env) (spec : ScalingPolicySpec) (max_pools : ℤ) (name : String)
      (template : MachineTemplate K) (plan : Plan F) (p : Pass) (n : ℕ)
      → max_pools ≤ℤ pos n
      → pools p ≤ n
      → pools (open_satellite lower_rune env spec max_pools name template plan p) ≤ n
  unfolding open_satellite
  open_satellite-pools env spec max_pools name template plan p n top h =
      let added = add_satellite-pools env name template plan p in
      elim (Bool-cases (leb_ℤ max_pools (pos (pools p)))) [
        | inl full ↦ ground arith
        | inr room ↦ let below = leb_ℤ→lt max_pools (pos (pools p)) room in ground arith
      ]

  serve_group-pools :
      (env : Env) (spec : ScalingPolicySpec) (max_pools : ℤ) (template : MachineTemplate K)
      (g : PlanGroup F) (p : Pass) (n : ℕ)
      → max_pools ≤ℤ pos n
      → pools p ≤ n
      → pools (serve_group lower_rune env spec max_pools template g p) ≤ n
  unfolding serve_group
  serve_group-pools env spec max_pools template g p n top h =
      let name = satellite_md_name lower_rune p.deployment.name g.plan.nickname in
      let q = call (get_deployment name) p in
      let opened = open_satellite-pools env spec max_pools name template g.plan q n top h in
      let grown = grow_satellite-pools env spec name (env.deployment_read q.calls) q in ground arith

  serve_groups-pools :
      (env : Env) (spec : ScalingPolicySpec) (max_pools : ℤ) (template : MachineTemplate K)
      (groups : List (String × PlanGroup F)) (p : Pass) (n : ℕ)
      → max_pools ≤ℤ pos n
      → pools p ≤ n
      → pools (serve_groups lower_rune env spec max_pools template groups p) ≤ n
  unfolding serve_groups
  serve_groups-pools env spec max_pools template [] p n top h = h
  serve_groups-pools env spec max_pools template ((k, g) ∷ groups) p n top h =
      serve_groups-pools env spec max_pools template groups
        (serve_group lower_rune env spec max_pools template g p) n top
        (serve_group-pools env spec max_pools template g p n top h)

module _ {F K : Type 0} ⦃f : Float64 F⦄ (lower_rune : Char → Char)
    (range : Dict (PlanGroup F) → List (String × PlanGroup F)) where
  -- After a pass the status counts no more satellites than before the pass, or than `maxPools` (3, if it
  -- is not positive), whichever is more: if there were no more than `n`, and `maxPools` is no more than
  -- `n`, there are no more than `n`. So it is in whatever order the groups are met, and whatever fails.
  pub reconcile_node_pools-bounded :
      (env : Env) (spec : ScalingPolicySpec) (cache : Cache F) (cluster_name : String)
      (plan : Option (Plan F)) (template : Option (MachineTemplate K)) (p : Pass)
      (policy : NodePoolPolicy) (n : ℕ)
      → spec.node_pool_policy ≡ some policy
      → max_pools_of policy ≤ℤ pos n
      → length p.status.node_pools ≤ n
      → length
          (reconcile_node_pools lower_rune range env spec cache cluster_name plan template
            p).0.status.node_pools
        ≤ n
  unfolding serve_pods
  reconcile_node_pools-bounded env spec cache cluster_name plan template p policy n given top h =
      reconcile_node_pools_cases lower_rune range (λ q. pools q ≤ n) env spec cache cluster_name
        plan template p h h h
        (λ policy' current t pods e.
          let q =
            call list_pending_pods
              (call (client_for_cluster cluster_name p.deployment.namespace) p) in
          let groups =
            group_by_plan (plans_of lower_rune cache spec.allowed_categories) spec.constraints
              (oversized current pods) [] in
          let same : policy' ≡ policy = ground arith in
          let served =
            serve_groups-pools lower_rune env spec (max_pools_of policy') t (range groups) q n
              (subst (λ x. max_pools_of x ≤ℤ pos n) (sym same) top) h in
          let r = serve_groups lower_rune env spec (max_pools_of policy') t (range groups) q in
          let cleaned = cleanup_node_pools-pools env spec r.deployment.namespace r in
          omega (arith, served, cleaned))
