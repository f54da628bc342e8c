-- ===== src/NodePool/Cleanup.antt =====
-- internal/controller/nodepool.go: `cleanupNodePools`, which deletes the satellites without pods.
use vpsie_k8s_capi_autoscale.Base.{
  ℤ, pos, add64, since, ltb_ℤ, String, true, Option, none, some, List, [], ◌∷◌, ok, err,
  if◌then◌else◌,
}
use vpsie_k8s_capi_autoscale.Cluster.{Node}
use vpsie_k8s_capi_autoscale.Policy.{NodePoolPolicy, NodePoolStatus, ScalingPolicySpec}
use vpsie_k8s_capi_autoscale.World.{
  Env, get_deployment, list_nodes, get_non_system_pod_count, delete_deployment, delete_template,
  get_template, present, absent, unreadable, node_pool, node_pool_deleted,
}
use vpsie_k8s_capi_autoscale.Horizontal.Pass.{Pass, call, condition, event, now, minutes}

abbrev pub default_node_pool_scale_down_delay : ℤ
default_node_pool_scale_down_delay = minutes 10

abbrev pub delay_of : ScalingPolicySpec → ℤ
delay_of spec = elim spec.node_pool_policy [
  | none ↦ default_node_pool_scale_down_delay
  | some policy ↦ elim (NodePoolPolicy.scale_down_delay policy) [
    | none ↦ default_node_pool_scale_down_delay
    | some delay ↦ delay
  ]
]

-- The pods on the nodes; a node whose pods cannot be counted is passed over.
unfoldable pub count_pods : Env → List Node → ℤ → Pass → Pass × ℤ
count_pods env [] total p = (p, total)
count_pods env (n ∷ ns) total p =
    let p = call (get_non_system_pod_count n.name) p in
    count_pods env ns
      (elim (env.pod_count p.calls) [ err _ ↦ total | ok count ↦ add64 total count ]) p

-- A pool that has pods now, or of which it is not known since when it has none.
abbrev pub seen : Env → NodePoolStatus → Pass → Pass × Option NodePoolStatus
seen env pool p = (p, some (record pool { last_pod_seen = some (now env p) }))

-- The errors of the deletion of the template are passed over.
unfoldable pub drop_template : Env → String → NodePoolStatus → Pass → Pass
drop_template env namespace pool p =
    let p = call (get_template namespace pool.name) p in
    elim (env.template_found p.calls) [ present ↦ call (delete_template pool.name) p | _ ↦ p ]

unfoldable pub delete_pool : Env → String → NodePoolStatus → Pass → Pass × Option NodePoolStatus
unfolding drop_template
delete_pool env namespace pool p =
    let p = call (delete_deployment pool.name) p in
    elim (env.deleted p.calls) [
      | err _ ↦ (p, some pool)
      | ok _ ↦
          let p = drop_template env namespace pool p in
          (condition node_pool true node_pool_deleted (event "NodePoolDeleted" p), none)
    ]

-- A pool without pods.
unfoldable pub age_pool :
    Env → ScalingPolicySpec → String → NodePoolStatus → Pass → Pass × Option NodePoolStatus
unfolding delete_pool
age_pool env spec namespace pool p = elim pool.last_pod_seen [
  | none ↦ seen env pool p
  | some t ↦
      if ltb_ℤ (since (now env p) t) (delay_of spec)
      then (p, some pool)
      else if spec.dry_run
      then (p, some pool)
      else delete_pool env namespace pool p
]

-- The pool with its nodes: is any pod on them?
unfoldable pub weigh_pool :
    Env
    → ScalingPolicySpec
    → String
    → NodePoolStatus
    → List Node
    → Pass
    → Pass × Option NodePoolStatus
unfolding age_pool count_pods
weigh_pool env spec namespace pool nodes p =
    let (p, total) = count_pods env nodes (pos 0) p in
    if ltb_ℤ (pos 0) total then seen env pool p else age_pool env spec namespace pool p

-- The status of the pool that is kept, if any.
unfoldable pub inspect_pool :
    Env → ScalingPolicySpec → String → NodePoolStatus → Pass → Pass × Option NodePoolStatus
unfolding weigh_pool
inspect_pool env spec namespace pool p =
    let p = call (get_deployment pool.name) p in
    elim (env.deployment_found p.calls) [
      | absent ↦ (p, none)
      | unreadable _ ↦ (p, some pool)
      | present ↦
          let p = call (list_nodes pool.name) p in
          elim (env.nodes p.calls) [
            | err _ ↦ (p, some pool)
            | ok [] ↦ (p, some pool)
            | ok (n ∷ ns) ↦ weigh_pool env spec namespace pool (n ∷ ns) p
          ]
    ]

abbrev pub with_kept : Option NodePoolStatus → List NodePoolStatus → List NodePoolStatus
with_kept none pools = pools
with_kept (some pool) pools = pool ∷ pools

unfoldable pub inspect_pools :
    Env → ScalingPolicySpec → String → List NodePoolStatus → Pass → Pass × List NodePoolStatus
unfolding inspect_pool
inspect_pools env spec namespace [] p = (p, [])
inspect_pools env spec namespace (pool ∷ pools) p =
    let (q, kept) = inspect_pool env spec namespace pool p in
    let (r, rest) = inspect_pools env spec namespace pools q in (r, with_kept kept rest)

unfoldable pub cleanup_node_pools : Env → ScalingPolicySpec → String → Pass → Pass
unfolding inspect_pools
cleanup_node_pools env spec namespace p =
    let (q, kept) = inspect_pools env spec namespace p.status.node_pools p in
    record q { status = record (q.status) { node_pools = kept } }
