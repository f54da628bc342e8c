-- ===== src/NodePool/Pools.antt =====
-- internal/controller/nodepool.go: `reconcileNodePools`, which creates and scales the satellites for
-- the pods that the current plan has no room for, and cleans up.
use Prim.Native.Char.{Char}
use vpsie_k8s_capi_autoscale.Base.{
  ℤ, pos, ltb_ℤ, leb_ℤ, add32, String, true, false, ◌<>◌, Option, none, some, List, [], ◌∷◌, ◌++◌,
  Dict, length, ok, err, if◌then◌else◌, ◌==◌, string_eq,
}
use vpsie_k8s_capi_autoscale.Cluster.{Pod}
use vpsie_k8s_capi_autoscale.Float.{Float64}
use vpsie_k8s_capi_autoscale.Plan.{Plan}
use vpsie_k8s_capi_autoscale.Policy.{NodePoolPolicy, NodePoolStatus, ScalingPolicySpec}
use vpsie_k8s_capi_autoscale.World.{
  Env, MachineDeployment, get_deployment, patch_replicas, client_for_cluster, list_pending_pods,
  present, absent, unreadable, node_pool, max_pools_reached, node_pool_created, node_pool_scale_up,
}
use vpsie_k8s_capi_autoscale.Pricing.Cache.{Cache, plans_of}
use vpsie_k8s_capi_autoscale.PlanSwitch.{MachineTemplate}
use vpsie_k8s_capi_autoscale.Horizontal.Pass.{
  Pass, Outcome, done, panicked, failed, call, condition, event, now, current_replicas_of,
  ready_replicas_of, max_replicas_of,
}
use vpsie_k8s_capi_autoscale.NodePool.Cleanup.{cleanup_node_pools}
use vpsie_k8s_capi_autoscale.NodePool.Groups.{PlanGroup, oversized, group_by_plan}
use vpsie_k8s_capi_autoscale.NodePool.Satellite.{satellite_md_name, create_satellite_md}

abbrev pub default_max_pools : ℤ
default_max_pools = pos 3

unfoldable pub max_pools_of : NodePoolPolicy → ℤ
max_pools_of policy = if ltb_ℤ (pos 0) policy.max_pools then policy.max_pools else default_max_pools

abbrev pub count_active_pools : List NodePoolStatus → ℤ
count_active_pools pools = pos (length pools)

-- The first pool of the name.
unfoldable pub update_node_pool_replicas :
    String → ℤ → ℤ → List NodePoolStatus → List NodePoolStatus
update_node_pool_replicas name replicas time [] = []
update_node_pool_replicas name replicas time (pool ∷ pools) =
    if NodePoolStatus.name pool == name
    then record pool { replicas = replicas; last_pod_seen = some time } ∷ pools
    else pool ∷ update_node_pool_replicas name replicas time pools

-- The satellite has all its replicas ready, and not as many as it may have.
unfoldable pub scale_satellite : Env → String → ℤ → Pass → Pass
unfolding update_node_pool_replicas
scale_satellite env name desired p =
    let p = call (patch_replicas name desired) p in
    elim (env.patched p.calls) [
      | err _ ↦ p
      | ok _ ↦
          let p = event "NodePoolScaleUp" p in
          let pools = update_node_pool_replicas name desired (now env p) p.status.node_pools in
          condition node_pool true node_pool_scale_up
            (record p { status = record (p.status) { node_pools = pools } })
    ]

-- The satellite is there.
unfoldable pub grow_satellite : Env → ScalingPolicySpec → String → MachineDeployment → Pass → Pass
unfolding scale_satellite
grow_satellite env spec name satellite p =
    if spec.dry_run
    then p
    else if ltb_ℤ (ready_replicas_of satellite) (current_replicas_of satellite)
    then p
    else if leb_ℤ (max_replicas_of spec.horizontal) (current_replicas_of satellite)
    then p
    else scale_satellite env name (add32 (current_replicas_of satellite) (pos 1)) p

module _ {F : Type 0} where
  abbrev pub new_pool : String → Plan F → ℤ → NodePoolStatus
  new_pool name plan time = record {
    name = name;
    plan_id = plan.identifier;
    plan_nickname = plan.nickname;
    replicas = pos 1;
    last_pod_seen = some time;
  }

  -- The satellite and its template are created.
  unfoldable pub note_pool : Env → String → Plan F → Pass → Pass
  note_pool env name plan p =
      let p = event "NodePoolCreated" p in
      let pools = p.status.node_pools ++ (new_pool name plan (now env p) ∷ []) in
      condition node_pool true node_pool_created
        (record p { status = record (p.status) { node_pools = pools } })

module _ {F K : Type 0} (lower_rune : Char → Char) where
  unfoldable pub add_satellite : Env → String → MachineTemplate K → Plan F → Pass → Pass
  unfolding note_pool
  add_satellite env name template plan p =
      let (p, exit) = create_satellite_md lower_rune env template plan p in
      elim exit [
        | done ↦ note_pool env name plan p
        | failed _ ↦ event "NodePoolCreateFailed" p
        | panicked ↦ p
      ]

  -- The satellite is not there.
  unfoldable pub open_satellite :
      Env → ScalingPolicySpec → ℤ → String → MachineTemplate K → Plan F → Pass → Pass
  unfolding add_satellite
  open_satellite env spec max_pools name template plan p =
      if leb_ℤ max_pools (count_active_pools p.status.node_pools)
      then condition node_pool false max_pools_reached p
      else if spec.dry_run
      then event "DryRun" p
      else add_satellite env name template plan p

  -- One round of the loop over the groups.
  unfoldable pub serve_group :
      Env → ScalingPolicySpec → ℤ → MachineTemplate K → PlanGroup F → Pass → Pass
  unfolding open_satellite grow_satellite
  serve_group env spec max_pools template g p =
      let name = satellite_md_name lower_rune p.deployment.name g.plan.nickname in
      let p = call (get_deployment name) p in
      elim (env.deployment_found p.calls) [
        | absent ↦ open_satellite env spec max_pools name template g.plan p
        | unreadable _ ↦ p
        | present ↦ grow_satellite env spec name (env.deployment_read p.calls) p
      ]

  unfoldable pub serve_groups :
      Env → ScalingPolicySpec → ℤ → MachineTemplate K → List (String × PlanGroup F) → Pass → Pass
  unfolding serve_group
  serve_groups env spec max_pools template [] p = p
  serve_groups env spec max_pools template ((_, g) ∷ groups) p =
      serve_groups env spec max_pools template groups (serve_group env spec max_pools template g p)

-- `range groups` is the order in which the loop meets the entries of the map of the groups.
module _ {F K : Type 0} ⦃f : Float64 F⦄ (lower_rune : Char → Char)
    (range : Dict (PlanGroup F) → List (String × PlanGroup F)) where
  -- The pending pods are listed.
  unfoldable pub serve_pods :
      Env → ScalingPolicySpec → ℤ → Cache F → Plan F → MachineTemplate K → List Pod → Pass → Pass
  unfolding serve_groups
  serve_pods env spec max_pools cache plan template pods p =
      let plans = plans_of lower_rune cache spec.allowed_categories in
      let groups = group_by_plan plans spec.constraints (oversized plan pods) [] in
      let p = serve_groups lower_rune env spec max_pools template (range groups) p in
      cleanup_node_pools env spec p.deployment.namespace p

  unfoldable pub list_and_serve :
      Env
      → ScalingPolicySpec
      → NodePoolPolicy
      → Cache F
      → Plan F
      → MachineTemplate K
      → Pass
      → Outcome
  unfolding serve_pods
  list_and_serve env spec policy cache plan template p =
      let p = call list_pending_pods p in
      elim (env.pending_pods p.calls) [
        | err e ↦ (p, failed ("listing pending pods for node pools: " <> e))
        | ok pods ↦ (serve_pods env spec (max_pools_of policy) cache plan template pods p, done)
      ]

  unfoldable pub connect_and_serve :
      Env
      → ScalingPolicySpec
      → String
      → NodePoolPolicy
      → Cache F
      → Plan F
      → MachineTemplate K
      → Pass
      → Outcome
  unfolding list_and_serve
  connect_and_serve env spec cluster_name policy cache plan template p =
      let p = call (client_for_cluster cluster_name p.deployment.namespace) p in
      elim (env.connect p.calls) [
        | err e ↦ (p, failed ("getting workload client for node pools: " <> e))
        | ok _ ↦ list_and_serve env spec policy cache plan template p
      ]

  unfoldable pub reconcile_node_pools :
      Env
      → ScalingPolicySpec
      → Cache F
      → String
      → Option (Plan F)
      → Option (MachineTemplate K)
      → Pass
      → Outcome
  unfolding connect_and_serve
  reconcile_node_pools env spec cache cluster_name current_plan current_template p =
      elim spec.node_pool_policy [
        | none ↦ (p, done)
        | some policy ↦
            if NodePoolPolicy.enabled policy
            then elim current_plan [
              | none ↦ (p, done)
              | some plan ↦ elim current_template [
                | none ↦ (p, done)
                | some template ↦
                    if env.has_workload_clients
                    then connect_and_serve env spec cluster_name policy cache plan template p
                    else (p, done)
              ]
            ]
            else (p, done)
      ]
