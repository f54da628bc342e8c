-- ===== src/Controller/Reconcile.antt =====
-- internal/controller/scalingpolicy_controller.go: `Reconcile`.
use Prim.Native.Char.{Char}
use vpsie_k8s_capi_autoscale.Base.{
  pos, String, true, ◌<>◌, Option, none, some, List, ◌∷◌, Dict, ok, err, insert, index_string,
}
use vpsie_k8s_capi_autoscale.Float.{Float64}
use vpsie_k8s_capi_autoscale.Plan.{Plan}
use vpsie_k8s_capi_autoscale.Policy.{ObjectReference, ScalingPolicyStatus}
use vpsie_k8s_capi_autoscale.World.{
  Calls, Env, MachineDeployment, get_policy, get_target, set_condition, found, missing, unknown,
  target_resolved, target_found, target_not_found, pricing_data_ready, credentials_not_found,
  pricing_fetch_failed, pricing_data_loaded,
}
use vpsie_k8s_capi_autoscale.Pricing.Cache.{Cache, categories_of}
use vpsie_k8s_capi_autoscale.PlanSwitch.{MachineTemplate}
use vpsie_k8s_capi_autoscale.Selector.{ScalingDirection}
use vpsie_k8s_capi_autoscale.Utilization.Thresholds.{UtilizationResult}
use vpsie_k8s_capi_autoscale.Horizontal.Pass.{Pass, panicked, now, current_replicas_of}
use vpsie_k8s_capi_autoscale.Horizontal.Reconcile.{reconcile_horizontal}
use vpsie_k8s_capi_autoscale.Direction.{decided, crashed, determine_direction}
use vpsie_k8s_capi_autoscale.NodePool.Groups.{PlanGroup}
use vpsie_k8s_capi_autoscale.NodePool.Satellite.{cluster_label}
use vpsie_k8s_capi_autoscale.NodePool.Pools.{reconcile_node_pools}
use vpsie_k8s_capi_autoscale.Controller.{Policy, Report, Objects, Caches, plan_info}
use vpsie_k8s_capi_autoscale.Controller.Credentials.{target_namespace, resolve_credentials}
use vpsie_k8s_capi_autoscale.Controller.Prices.{ensure_cache, freshen, resolve_current_plan}
use vpsie_k8s_capi_autoscale.Controller.Conclude.{
  Reply, requeue_after, rejected, aborted, Ended, ended, give_up, with_utilization, conclude,
}

module _ {F K : Type 0} ⦃f : Float64 F⦄ (lower_rune : Char → Char)
    (range : Dict (PlanGroup F) → List (String × PlanGroup F)) (env : Env)
    (objects : Objects F K) where
  -- The replicas and the node pools, whose errors are passed over.
  unfoldable pub scale_and_conclude :
      Policy F
      → Caches F
      → Cache F
      → Option (Plan F)
      → Option (MachineTemplate K)
      → Option (UtilizationResult F)
      → ScalingDirection
      → String
      → Pass
      → Ended F
  unfolding conclude
  scale_and_conclude policy caches cache current template util direction cluster_name p =
      let (p, exit) = reconcile_horizontal env policy.spec cluster_name util current p in
      let (q, pools_exit) =
        reconcile_node_pools lower_rune range env policy.spec cache cluster_name current template
          p in
      elim exit [
        | panicked ↦ ended policy caches p.calls aborted
        | _ ↦ elim pools_exit [
          | panicked ↦ ended policy caches q.calls aborted
          | _ ↦ conclude lower_rune env policy caches cache current template util direction q
        ]
      ]

  unfoldable pub direct :
      Policy F → Caches F → Cache F → Option (Plan F) → Option (MachineTemplate K) → Pass → Ended F
  unfolding scale_and_conclude
  direct policy caches cache current template p =
      let cluster_name = index_string cluster_label p.deployment.labels in
      let (p, decision) = determine_direction env policy.spec current cluster_name p in
      elim decision [
        | crashed ↦ ended policy caches p.calls aborted
        | decided direction util ↦
            let report = with_utilization util (now env p) policy.report in
            scale_and_conclude (record policy { report = report }) caches cache current template
              util direction cluster_name p
      ]

  -- The prices are known.
  unfoldable pub with_prices : Policy F → Caches F → Cache F → MachineDeployment → Calls → Ended F
  unfolding direct
  with_prices policy caches cache md calls =
      let calls = set_condition pricing_data_ready true pricing_data_loaded ∷ calls in
      let (calls, current, template, _) = resolve_current_plan objects md cache calls in
      let report : Report F = record (policy.report) {
        available_categories = categories_of cache;
        last_plan_refresh_time = some cache.last_refresh;
      } in
      let report : Report F = elim current [
        | none ↦ report
        | some plan ↦ record report { current_plan = some (plan_info plan) }
      ] in
      let replicas = current_replicas_of md in
      let status : ScalingPolicyStatus = record (policy.status) {
        current_replicas = replicas;
        desired_replicas = replicas;
      } in
      direct (record policy { status = status; report = report }) caches cache current template
        (record { status = status; deployment = md; calls = calls })

  -- The target is there.
  unfoldable pub with_target : Policy F → Caches F → MachineDeployment → Calls → Ended F
  unfolding with_prices give_up
  with_target policy caches md calls =
      let calls = set_condition target_resolved true target_found ∷ calls in
      let (calls, key) = resolve_credentials objects policy calls in
      elim key [
        | err _ ↦ give_up env pricing_data_ready credentials_not_found policy caches calls
        | ok api_key ↦
            elim (ensure_cache objects policy.uid api_key policy.spec.dc_identifier
              policy.spec.os_identifier policy.spec.plan_refresh_interval caches) [
                | err e ↦ ended policy caches calls (rejected ("creating pricing client: " <> e))
                | ok (caches, source) ↦
                    let (calls, fresh) = freshen objects lower_rune env source calls in
                    elim fresh [
                      | err _ ↦
                          give_up env pricing_data_ready pricing_fetch_failed policy caches calls
                      | ok source ↦
                          with_prices policy (insert policy.uid source caches) source.cache md calls
                    ]
              ]
      ]

  unfoldable pub reconcile_policy : Policy F → Caches F → Calls → Ended F
  unfolding with_target
  reconcile_policy policy caches calls =
      let calls =
        get_target (target_namespace policy) (ObjectReference.name policy.spec.target_ref)
        ∷ calls in
      elim (objects.target calls) [
        | missing _ ↦ give_up env target_resolved target_not_found policy caches calls
        | unknown e ↦ ended policy caches calls (rejected e)
        | found md ↦ with_target policy caches md calls
      ]

  unfoldable pub reconcile : String → String → Caches F → Calls → Ended F
  unfolding reconcile_policy
  reconcile namespace name caches calls =
      let calls = get_policy namespace name ∷ calls in
      let unread : Reply → Ended F =
        λ reply. record { policy = none; caches = caches; calls = calls; reply = reply } in
      elim (objects.policy calls) [
        | missing _ ↦ unread (requeue_after (pos 0))
        | unknown e ↦ unread (rejected e)
        | found policy ↦ reconcile_policy policy caches calls
      ]
