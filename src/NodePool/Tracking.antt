-- ===== src/NodePool/Tracking.antt =====
-- Which satellites the status notes after `reconcileNodePools` of internal/controller/nodepool.go.
use Prim.Native.Char.{Char}
use vpsie_k8s_capi_autoscale.Base.{
  pos, ltb_ℤ, leb_ℤ, ◌≡◌, ◌∙◌, refl, String, true, false, some, List, [], ◌∷◌, Dict, ok, arith,
}
use vpsie_k8s_capi_autoscale.Cluster.{Pod}
use vpsie_k8s_capi_autoscale.Float.{Float64}
use vpsie_k8s_capi_autoscale.Plan.{Plan}
use vpsie_k8s_capi_autoscale.Policy.{NodePoolPolicy, NodePoolStatus, ScalingPolicySpec}
use vpsie_k8s_capi_autoscale.World.{
  Calls, Env, MachineDeployment, get_deployment, get_template, create_deployment, absent, present,
}
use vpsie_k8s_capi_autoscale.Pricing.Cache.{Cache, plans_of}
use vpsie_k8s_capi_autoscale.PlanSwitch.{MachineTemplate}
use vpsie_k8s_capi_autoscale.Horizontal.Pass.{Pass, call, done}
use vpsie_k8s_capi_autoscale.NodePool.Cleanup.{inspect_pool, inspect_pools, cleanup_node_pools}
use vpsie_k8s_capi_autoscale.NodePool.Groups.{PlanGroup, group_by_plan, oversized}
use vpsie_k8s_capi_autoscale.NodePool.Satellite.{
  satellite_md_name, create_satellite, create_satellite_objects, create_satellite_md,
  satellite_template, satellite_deployment,
}
use vpsie_k8s_capi_autoscale.NodePool.Cases.{reached, listed}
use vpsie_k8s_capi_autoscale.NodePool.Pools.{
  note_pool, add_satellite, open_satellite, serve_group, serve_groups, serve_pods, list_and_serve,
  connect_and_serve, reconcile_node_pools, max_pools_of,
}

-- The MachineDeployments that calls create.
abbrev pub creations : Calls → List String
creations [] = []
creations (create_deployment md ∷ calls) = MachineDeployment.name md ∷ creations calls
creations (_ ∷ calls) = creations calls

max_pools_of-positive : (policy : NodePoolPolicy) → leb_ℤ (max_pools_of policy) (pos 0) ≡ false
unfolding max_pools_of ltb_ℤ leb_ℤ
max_pools_of-positive policy = ground arith

inspect_pools-forgets :
    (env : Env) (spec : ScalingPolicySpec) (namespace : String) (pools : List NodePoolStatus)
    (p : Pass)
    → ((calls : Calls) → env.deployment_found calls ≡ absent)
    → ((inspect_pools env spec namespace pools p).1 ≡ [])
      × (creations (inspect_pools env spec namespace pools p).0.calls ≡ creations p.calls)
unfolding inspect_pools inspect_pool
inspect_pools-forgets env spec namespace [] p unseen = (refl, refl)
inspect_pools-forgets env spec namespace (pool ∷ pools) p unseen =
    let q = call (get_deployment pool.name) p in
    rw (inspect_pools, inspect_pool, unseen q.calls)
      (inspect_pools-forgets env spec namespace pools q unseen)

create_satellite_objects-done :
    {K : Type 0} (env : Env) (t : MachineTemplate K) (md : MachineDeployment) (p : Pass)
    → ((calls : Calls) → env.template_found calls ≡ present)
    → ((calls : Calls) → env.created calls ≡ ok tt)
    → create_satellite_objects env t md p
      ≡ (call (create_deployment md) (call (get_template t.namespace t.name) p), done)
unfolding create_satellite_objects create_satellite
create_satellite_objects-done env t md p found made =
    let q = call (get_template t.namespace t.name) p in
    rw
      (
        create_satellite_objects,
        found q.calls,
        create_satellite,
        made (create_deployment md ∷ q.calls),
      )
      refl

module _ {F K : Type 0} (lower_rune : Char → Char) where
  -- A satellite is opened if there is none, and everything can be created.
  serve_group-creates :
      (env : Env) (spec : ScalingPolicySpec) (policy : NodePoolPolicy)
      (template : MachineTemplate K) (g : PlanGroup F) (p : Pass)
      → p.status.node_pools ≡ []
      → spec.dry_run ≡ false
      → ((calls : Calls) → env.deployment_found calls ≡ absent)
      → ((calls : Calls) → env.template_found calls ≡ present)
      → ((calls : Calls) → env.created calls ≡ ok tt)
      → creations (serve_group lower_rune env spec (max_pools_of policy) template g p).calls
        ≡ satellite_md_name lower_rune p.deployment.name g.plan.nickname ∷ creations p.calls
  unfolding serve_group open_satellite add_satellite note_pool create_satellite_md
      satellite_deployment
  serve_group-creates env spec policy template g p none_noted wet unseen found made =
      let name = satellite_md_name lower_rune p.deployment.name g.plan.nickname in
      let q = call (get_deployment name) p in
      let absent_now = unseen q.calls in
      let room = max_pools_of-positive policy in
      let objects =
        create_satellite_objects-done env
          (satellite_template lower_rune q.deployment template g.plan)
          (satellite_deployment lower_rune q.deployment g.plan) q found made in
      ground arith

module _ {F K : Type 0} ⦃f : Float64 F⦄ (lower_rune : Char → Char)
    (range : Dict (PlanGroup F) → List (String × PlanGroup F)) where
  -- A pass that creates a satellite for the one group of pods, and that does not yet find it when it
  -- looks for it a moment later, forgets it: the satellite is created, but the status notes none, so
  -- that it is never counted, scaled by its status or cleaned up. Conditions: no satellite is noted
  -- before, node pools are enabled and the current plan and template are known, it is no dry run, the
  -- cluster is reached and lists its pods, the template is found, every creation succeeds, and every
  -- lookup of a MachineDeployment in the pass answers that there is none.
  pub reconcile_node_pools-forgets :
      (env : Env) (spec : ScalingPolicySpec) (cache : Cache F) (cluster_name : String)
      (plan : Plan F) (template : MachineTemplate K) (p : Pass) (policy : NodePoolPolicy)
      (pods : List Pod) (k : String) (g : PlanGroup F)
      → spec.node_pool_policy ≡ some policy
      → policy.enabled ≡ true
      → env.has_workload_clients ≡ true
      → env.connect (reached cluster_name p).calls ≡ ok tt
      → env.pending_pods (listed cluster_name p).calls ≡ ok pods
      → range (
          group_by_plan
            (plans_of lower_rune cache spec.allowed_categories)
            spec.constraints
            (oversized plan pods)
            [])
        ≡ (k, g) ∷ []
      → p.status.node_pools ≡ []
      → spec.dry_run ≡ false
      → ((calls : Calls) → env.deployment_found calls ≡ absent)
      → ((calls : Calls) → env.template_found calls ≡ present)
      → ((calls : Calls) → env.created calls ≡ ok tt)
      → let (q, exit) =
          reconcile_node_pools lower_rune range env spec cache cluster_name
            (some plan)
            (some template)
            p in
        (exit ≡ done)
        × (creations q.calls
            ≡ satellite_md_name lower_rune p.deployment.name g.plan.nickname ∷ creations p.calls)
        × (q.status.node_pools ≡ [])
  unfolding reconcile_node_pools connect_and_serve list_and_serve serve_pods serve_groups
      cleanup_node_pools
  reconcile_node_pools-forgets env spec cache cluster_name plan template p policy pods k g given on
        clients reaches lists one none_noted wet unseen found made =
      let q = listed cluster_name p in
      let r = serve_group lower_rune env spec (max_pools_of policy) template g q in
      let created =
        serve_group-creates lower_rune env spec policy template g q none_noted wet unseen found
          made in
      let (dropped, same) =
        inspect_pools-forgets env spec r.deployment.namespace r.status.node_pools r unseen in
      let served : serve_pods lower_rune range env spec (max_pools_of policy) cache plan template
            pods q
          ≡ cleanup_node_pools env spec r.deployment.namespace r =
        rw (serve_pods, one) refl in
      let whole : reconcile_node_pools lower_rune range env spec cache cluster_name (some plan)
            (some template) p
          ≡ (cleanup_node_pools env spec r.deployment.namespace r, done) =
        ground arith in
      rw whole (refl, same ∙ created, dropped)
