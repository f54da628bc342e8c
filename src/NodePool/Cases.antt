-- ===== src/NodePool/Cases.antt =====
-- The ways through `reconcileNodePools` of internal/controller/nodepool.go.
use Prim.Native.Char.{Char}
use vpsie_k8s_capi_autoscale.Base.{
  ◌≡◌, inl, inr, String, Option, some, List, Dict, Result-cases, Bool-cases, cond_cases,
  Option-cases, cond,
}
use vpsie_k8s_capi_autoscale.Cluster.{Pod}
use vpsie_k8s_capi_autoscale.Float.{Float64}
use vpsie_k8s_capi_autoscale.Plan.{Plan}
use vpsie_k8s_capi_autoscale.Policy.{NodePoolPolicy, ScalingPolicySpec}
use vpsie_k8s_capi_autoscale.World.{Env, client_for_cluster, list_pending_pods}
use vpsie_k8s_capi_autoscale.Pricing.Cache.{Cache}
use vpsie_k8s_capi_autoscale.PlanSwitch.{MachineTemplate}
use vpsie_k8s_capi_autoscale.Horizontal.Pass.{Pass, Outcome, call}
use vpsie_k8s_capi_autoscale.NodePool.Groups.{PlanGroup}
use vpsie_k8s_capi_autoscale.NodePool.Pools.{
  serve_pods, list_and_serve, connect_and_serve, reconcile_node_pools, max_pools_of,
}

abbrev pub reached : String → Pass → Pass
reached cluster_name p = call (client_for_cluster cluster_name p.deployment.namespace) p

abbrev pub listed : String → Pass → Pass
listed cluster_name p = call list_pending_pods (reached cluster_name p)

module _ {F K : Type 0} ⦃f : Float64 F⦄ (lower_rune : Char → Char)
    (range : Dict (PlanGroup F) → List (String × PlanGroup F)) where
  connect_and_serve_cases {ℓ} :
      (P : Pass → Type ℓ) (env : Env) (spec : ScalingPolicySpec) (cluster_name : String)
      (policy : NodePoolPolicy) (cache : Cache F) (plan : Plan F) (t : MachineTemplate K) (p : Pass)
      → P (reached cluster_name p)
      → P (listed cluster_name p)
      → ((pods : List Pod)
          → P (
              serve_pods lower_rune range env spec
                (max_pools_of policy)
                cache
                plan
                t
                pods
                (listed cluster_name p)))
      → P (connect_and_serve lower_rune range env spec cluster_name policy cache plan t p).0
  unfolding connect_and_serve list_and_serve
  connect_and_serve_cases P env spec cluster_name policy cache plan t p asked unlisted served =
      elim (Result-cases (env.connect (reached cluster_name p).calls)) [
        | inr (why, e) ↦ rw (connect_and_serve, e) asked
        | inl (_, e) ↦ elim (Result-cases (env.pending_pods (listed cluster_name p).calls)) [
          | inr (why, e') ↦ rw (connect_and_serve, e, list_and_serve, e') unlisted
          | inl (pods, e') ↦ rw (connect_and_serve, e, list_and_serve, e') (served pods)
        ]
      ]

  -- What holds of a pass over the node pools, if it holds when nothing is done, when the cluster was
  -- asked, and when the listed pods were served.
  pub reconcile_node_pools_cases {ℓ} :
      (P : Pass → Type ℓ) (env : Env) (spec : ScalingPolicySpec) (cache : Cache F)
      (cluster_name : String) (plan : Option (Plan F)) (template : Option (MachineTemplate K))
      (p : Pass)
      → P p
      → P (reached cluster_name p)
      → P (listed cluster_name p)
      → ((policy : NodePoolPolicy) (current : Plan F) (t : MachineTemplate K) (pods : List Pod)
          → spec.node_pool_policy ≡ some policy
          → P (
              serve_pods lower_rune range env spec
                (max_pools_of policy)
                cache
                current
                t
                pods
                (listed cluster_name p)))
      → P (reconcile_node_pools lower_rune range env spec cache cluster_name plan template p).0
  unfolding reconcile_node_pools
  reconcile_node_pools_cases P env spec cache cluster_name plan template p idle asked unlisted
        served =
      elim (Option-cases spec.node_pool_policy) [
        | inl e ↦ rw (reconcile_node_pools, e) idle
        | inr (policy, e) ↦ elim (Bool-cases policy.enabled) [
          | inr off ↦ rw (reconcile_node_pools, e, off, cond) idle
          | inl on ↦ elim (Option-cases plan) [
            | inl u ↦ rw (reconcile_node_pools, e, on, cond, u) idle
            | inr (current, k) ↦ elim (Option-cases template) [
              | inl u ↦ rw (reconcile_node_pools, e, on, cond, k, u) idle
              | inr (t, l) ↦
                  rw (reconcile_node_pools, e, on, k, l, cond)
                    (cond_cases (λ (o : Outcome). P o.0) env.has_workload_clients
                      (connect_and_serve_cases P env spec cluster_name policy cache current t p
                        asked unlisted (λ pods. served policy current t pods e))
                      idle)
            ]
          ]
        ]
      ]
