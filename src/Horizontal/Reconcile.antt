-- ===== src/Horizontal/Reconcile.antt =====
-- `reconcileHorizontal`, from its parts.
use vpsie_k8s_capi_autoscale.Base.{
  ℤ, pos, ltb_ℤ, String, ◌<>◌, Bool, false, ◌&&◌, Option, none, some, List, [], ◌∷◌, length, keep,
  ok, err, ◌==◌, string_eq, if◌then◌else◌,
}
use vpsie_k8s_capi_autoscale.Cluster.{Pod}
use vpsie_k8s_capi_autoscale.Float.{Float64}
use vpsie_k8s_capi_autoscale.Plan.{Plan}
use vpsie_k8s_capi_autoscale.Policy.{ScalingPolicySpec}
use vpsie_k8s_capi_autoscale.Utilization.Thresholds.{UtilizationResult}
use vpsie_k8s_capi_autoscale.NodePool.Fit.{pod_fits_current_plan}
use vpsie_k8s_capi_autoscale.World.{Env, client_for_cluster, list_pending_pods}
use vpsie_k8s_capi_autoscale.Horizontal.Pass.{
  Pass, Outcome, done, failed, call, current_replicas_of, ready_replicas_of, min_replicas_of,
  max_replicas_of,
}
use vpsie_k8s_capi_autoscale.Horizontal.Drain.{continue_drain}
use vpsie_k8s_capi_autoscale.Horizontal.Rollout.{await_rollout, forget_template}
use vpsie_k8s_capi_autoscale.Horizontal.ScaleUp.{scale_up}
use vpsie_k8s_capi_autoscale.Horizontal.ScaleDown.{scale_down}

unfoldable pub node_pools_enabled : ScalingPolicySpec → Bool
node_pools_enabled spec = elim spec.node_pool_policy [ none ↦ false | some policy ↦ policy.enabled ]

-- The pending pods that horizontal scaling answers for: with node pools, those that fit the plan.
unfoldable pub relevant_pods :
    {F : Type 0} → ScalingPolicySpec → Option (Plan F) → List Pod → List Pod
relevant_pods spec none pods = pods
relevant_pods spec (some plan) pods =
    if node_pools_enabled spec then keep (λ pod. pod_fits_current_plan pod plan) pods else pods

module _ {F : Type 0} ⦃f : Float64 F⦄ where
  -- All replicas are ready and no drain is in progress.
  unfoldable pub scale :
      Env → ScalingPolicySpec → Option (UtilizationResult F) → List Pod → ℤ → Pass → Outcome
  scale env spec util [] current p =
      scale_down env spec util (min_replicas_of spec.horizontal) current (forget_template p)
  scale env spec util (_ ∷ _) current p =
      scale_up env spec.dry_run (max_replicas_of spec.horizontal) current (forget_template p)

  unfoldable pub with_pending :
      Env → ScalingPolicySpec → Option (UtilizationResult F) → List Pod → Pass → Outcome
  with_pending env spec util pods p =
      let p = record p { status = record (p.status) { pending_pods = pos (length pods) } } in
      let current = current_replicas_of p.deployment in
      if p.status.draining_node == ""
      then if ltb_ℤ (ready_replicas_of p.deployment) current
        then await_rollout env p
        else scale env spec util pods current p
      else continue_drain env (min_replicas_of spec.horizontal) current p

  unfoldable pub with_client :
      Env
      → ScalingPolicySpec
      → String
      → Option (UtilizationResult F)
      → Option (Plan F)
      → Pass
      → Outcome
  with_client env spec cluster_name util plan p =
      let p = call (client_for_cluster cluster_name p.deployment.namespace) p in
      elim (env.connect p.calls) [
        | err e ↦ (p, failed ("getting workload client: " <> e))
        | ok _ ↦
            let p = call list_pending_pods p in
            elim (env.pending_pods p.calls) [
              | err e ↦ (p, failed ("listing pending pods: " <> e))
              | ok pods ↦ with_pending env spec util (relevant_pods spec plan pods) p
            ]
      ]

  unfoldable pub reconcile_horizontal :
      Env
      → ScalingPolicySpec
      → String
      → Option (UtilizationResult F)
      → Option (Plan F)
      → Pass
      → Outcome
  reconcile_horizontal env spec cluster_name util plan p =
      if spec.horizontal.enabled && env.has_workload_clients
      then with_client env spec cluster_name util plan p
      else (p, done)
