-- ===== src/NodePool/Inspection.antt =====
-- The ways through the cleanup of internal/controller/nodepool.go, and which of its calls change a cluster.
use vpsie_k8s_capi_autoscale.Base.{
  ℤ, pos, ◌≡◌, Result-cases, inl, inr, true, String, Option, none, some, List, [], ◌∷◌, All, arith,
}
use vpsie_k8s_capi_autoscale.Cluster.{Node}
use vpsie_k8s_capi_autoscale.Policy.{NodePoolStatus, ScalingPolicySpec}
use vpsie_k8s_capi_autoscale.World.{
  Env, ObjectLookup-cases, get_deployment, list_nodes, get_non_system_pod_count,
}
use vpsie_k8s_capi_autoscale.Horizontal.Pass.{Pass, call}
use vpsie_k8s_capi_autoscale.Horizontal.DryRun.{IsReadOnly}
use vpsie_k8s_capi_autoscale.NodePool.Cleanup.{
  count_pods, age_pool, weigh_pool, inspect_pool, inspect_pools, cleanup_node_pools,
}

count_pods-IsReadOnly :
    (env : Env) (nodes : List Node) (total : ℤ) (p : Pass)
    → All IsReadOnly p.calls
    → All IsReadOnly (count_pods env nodes total p).0.calls
unfolding count_pods
count_pods-IsReadOnly env [] total p h = h
count_pods-IsReadOnly env (n ∷ ns) total p h =
    count_pods-IsReadOnly env ns _ (call (get_non_system_pod_count n.name) p) (tt, h)

weigh_pool-IsReadOnly :
    (env : Env) (spec : ScalingPolicySpec) (namespace : String) (pool : NodePoolStatus)
    (nodes : List Node) (p : Pass)
    → spec.dry_run ≡ true
    → All IsReadOnly p.calls
    → All IsReadOnly (weigh_pool env spec namespace pool nodes p).0.calls
unfolding weigh_pool age_pool
weigh_pool-IsReadOnly env spec namespace pool nodes p dry h =
    let counted = count_pods-IsReadOnly env nodes (pos 0) p h in ground arith

-- What holds of the pass after a pool holds of the three ways through it.
pub inspect_pool_cases {ℓ} :
    (P : Pass × Option NodePoolStatus → Type ℓ) (env : Env) (spec : ScalingPolicySpec)
    (namespace : String) (pool : NodePoolStatus) (p : Pass)
    → ((kept : Option NodePoolStatus) → P (call (get_deployment pool.name) p, kept))
    → ((kept : Option NodePoolStatus)
        → P (call (list_nodes pool.name) (call (get_deployment pool.name) p), kept))
    → ((nodes : List Node)
        → P (
            weigh_pool env spec namespace pool nodes
              (call (list_nodes pool.name) (call (get_deployment pool.name) p))))
    → P (inspect_pool env spec namespace pool p)
unfolding inspect_pool
inspect_pool_cases P env spec namespace pool p unseen unlisted weighed =
    elim (ObjectLookup-cases (env.deployment_found (get_deployment pool.name ∷ p.calls))) [
      | inl e ↦
          elim (Result-cases
            (env.nodes (list_nodes pool.name ∷ get_deployment pool.name ∷ p.calls))) [
              | inl ([], none_listed) ↦ rw (e, inspect_pool, none_listed) (unlisted (some pool))
              | inl (n ∷ ns, listed) ↦ rw (e, inspect_pool, listed) (weighed (n ∷ ns))
              | inr (why, failed) ↦ rw (e, inspect_pool, failed) (unlisted (some pool))
            ]
      | inr (inl e) ↦ rw (e, inspect_pool) (unseen none)
      | inr (inr (why, e)) ↦ rw (e, inspect_pool) (unseen (some pool))
    ]

inspect_pool-IsReadOnly :
    (env : Env) (spec : ScalingPolicySpec) (namespace : String) (pool : NodePoolStatus) (p : Pass)
    → spec.dry_run ≡ true
    → All IsReadOnly p.calls
    → All IsReadOnly (inspect_pool env spec namespace pool p).0.calls
inspect_pool-IsReadOnly env spec namespace pool p dry h =
    inspect_pool_cases (λ o. All IsReadOnly o.0.calls) env spec namespace pool p (λ _. (tt, h))
      (λ _. (tt, (tt, h)))
      (λ nodes. weigh_pool-IsReadOnly env spec namespace pool nodes _ dry (tt, (tt, h)))

inspect_pools-IsReadOnly :
    (env : Env) (spec : ScalingPolicySpec) (namespace : String) (pools : List NodePoolStatus)
    (p : Pass)
    → spec.dry_run ≡ true
    → All IsReadOnly p.calls
    → All IsReadOnly (inspect_pools env spec namespace pools p).0.calls
unfolding inspect_pools
inspect_pools-IsReadOnly env spec namespace [] p dry h = h
inspect_pools-IsReadOnly env spec namespace (pool ∷ pools) p dry h =
    let rest =
      inspect_pools-IsReadOnly env spec namespace pools (inspect_pool env spec namespace pool p).0
        dry (inspect_pool-IsReadOnly env spec namespace pool p dry h) in
    rest

pub cleanup_node_pools-IsReadOnly :
    (env : Env) (spec : ScalingPolicySpec) (namespace : String) (p : Pass)
    → spec.dry_run ≡ true
    → All IsReadOnly p.calls
    → All IsReadOnly (cleanup_node_pools env spec namespace p).calls
unfolding cleanup_node_pools
cleanup_node_pools-IsReadOnly env spec namespace p dry h =
    inspect_pools-IsReadOnly env spec namespace p.status.node_pools p dry h
