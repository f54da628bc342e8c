-- ===== src/Rebalancer.antt =====
-- internal/controller/rebalancer.go: `rebalancePolicy` which may switch the plan of a policy.
pub mod Guards
pub mod Cycle
pub mod Safety
pub mod Cases
pub mod Justified
pub mod Idle
pub mod Bound
use Prim.Native.Char.{Char}
use vpsie_k8s_capi_autoscale.Base.{
  ◌*◌, ℤ, pos, ltb_ℤ, since, String, ◌<>◌, Bool, true, false, ◌&&◌, Option, none, some, List, [],
  ◌∷◌, Result, ok, err, lookup, insert, index_string, ◌==◌, string_eq, if◌then◌else◌, leb_ℤ,
}
use vpsie_k8s_capi_autoscale.Float.{Float64}
use vpsie_k8s_capi_autoscale.Plan.{Plan}
use vpsie_k8s_capi_autoscale.Policy.{ObjectReference, ScalingPolicySpec, ScalingPolicyStatus}
use vpsie_k8s_capi_autoscale.World.{
  Calls, Env, MachineDeployment, ConditionReason, get_target, list_policies, set_condition,
  update_status, found, missing, unknown, rebalancing, insufficient_replicas, rollout_in_progress,
  no_better_plan, switch_failed, rebalancing_in_progress,
}
use vpsie_k8s_capi_autoscale.Pricing.Cache.{Cache}
use vpsie_k8s_capi_autoscale.PlanSwitch.{MachineTemplate, switch_plan}
use vpsie_k8s_capi_autoscale.Selector.{ScalingDirection}
use vpsie_k8s_capi_autoscale.Utilization.Thresholds.{UtilizationResult}
use vpsie_k8s_capi_autoscale.Horizontal.Pass.{
  Pass, Exit, done, panicked, failed, condition, now, minutes, current_replicas_of,
}
use vpsie_k8s_capi_autoscale.Direction.{decided, crashed, determine_direction}
use vpsie_k8s_capi_autoscale.NodePool.Satellite.{cluster_label}
use vpsie_k8s_capi_autoscale.Controller.{
  Policy, Report, Objects, PriceSource, Caches, phase_rebalancing, phase_error,
}
use vpsie_k8s_capi_autoscale.Controller.Credentials.{target_namespace}
use vpsie_k8s_capi_autoscale.Controller.Prices.{
  freshen, resolve_current_plan, choose_plan, switch_target,
}
use vpsie_k8s_capi_autoscale.Controller.Conclude.{with_utilization}
use vpsie_k8s_capi_autoscale.Rebalancer.Guards.{
  is_cooling, replicas_match, min_replicas_for_rebalance,
}

-- The policy as it stands in memory, the caches, the calls, and how `rebalancePolicy` ends.
pub record Rebalanced (F : Type 0) : Type 0 where
  pub policy : Policy F
  pub caches : Caches F
  pub calls : Calls
  pub exit : Exit

module _ {F : Type 0} where
  abbrev pub rebalanced : Policy F → Caches F → Calls → Exit → Rebalanced F
  rebalanced policy caches calls exit = record {
    policy = policy;
    caches = caches;
    calls = calls;
    exit = exit;
  }

  -- `return rb.Status().Update(ctx, policy)`
  unfoldable pub update_policy : Env → Policy F → Caches F → Calls → Rebalanced F
  update_policy env policy caches calls =
      let calls = update_status ∷ calls in
      elim (env.updated calls) [
        | err e ↦ rebalanced policy caches calls (failed e)
        | ok _ ↦ rebalanced policy caches calls done
      ]

  -- Nothing is switched, for the reason.
  unfoldable pub refrain : Env → ConditionReason → Policy F → Caches F → Calls → Rebalanced F
  unfolding update_policy
  refrain env reason policy caches calls =
      update_policy env policy caches (set_condition rebalancing false reason ∷ calls)

module _ {F K : Type 0} ⦃f : Float64 F⦄ (lower_rune : Char → Char) (env : Env) where
  unfoldable pub perform_switch :
      Policy F → Caches F → Plan F → Option (MachineTemplate K) → Pass → Rebalanced F
  unfolding update_policy refrain
  perform_switch policy caches plan template p =
      let (p, exit) = switch_plan lower_rune env plan template p in
      elim exit [
        | done ↦
            let status : ScalingPolicyStatus = record (p.status) {
              last_rebalance_time = some (now env p);
            } in
            let report : Report F = record (policy.report) { phase = phase_rebalancing } in
            update_policy env (record policy { status = status; report = report }) caches
              (set_condition rebalancing true rebalancing_in_progress ∷ p.calls)
        | _ ↦
            refrain env switch_failed
              (record policy {
                status = p.status;
                report = record (policy.report) { phase = phase_error };
              })
              caches p.calls
      ]

  -- The direction is known.
  unfoldable pub choose_and_switch :
      Policy F
      → Caches F
      → Cache F
      → Option (Plan F)
      → Option (MachineTemplate K)
      → Option (UtilizationResult F)
      → ScalingDirection
      → Pass
      → Rebalanced F
  unfolding perform_switch refrain
  choose_and_switch policy caches cache current template util direction p =
      let policy = record policy {
        status = p.status;
        report = with_utilization util (now env p) policy.report;
      } in
      let result = choose_plan lower_rune policy.spec cache util current direction in
      elim (switch_target policy.spec current result) [
        | none ↦ refrain env no_better_plan policy caches p.calls
        | some plan ↦
            if policy.spec.dry_run
            then rebalanced policy caches p.calls done
            else perform_switch policy caches plan template p
      ]

  unfoldable pub direct_rebalance :
      Policy F
      → Caches F
      → Cache F
      → Option (Plan F)
      → Option (MachineTemplate K)
      → Pass
      → Rebalanced F
  unfolding choose_and_switch
  direct_rebalance policy caches cache current template p =
      let cluster_name = index_string cluster_label p.deployment.labels in
      let (p, decision) = determine_direction env policy.spec current cluster_name p in
      elim decision [
        | crashed ↦ rebalanced policy caches p.calls panicked
        | decided direction util ↦
            choose_and_switch policy caches cache current template util direction p
      ]

module _ {F K : Type 0} ⦃f : Float64 F⦄ (lower_rune : Char → Char) (env : Env)
    (objects : Objects F K) where
  -- The cache is there.
  unfoldable pub rebalance_with :
      Policy F → Caches F → PriceSource F → MachineDeployment → Calls → Rebalanced F
  unfolding direct_rebalance
  rebalance_with policy caches source md calls =
      let (calls, fresh) = freshen objects lower_rune env source calls in
      elim fresh [
        | err e ↦ rebalanced policy caches calls (failed ("refreshing pricing cache: " <> e))
        | ok source ↦
            let caches = insert policy.uid source caches in
            let (calls, current, template, error) =
              resolve_current_plan objects md source.cache calls in
            elim error [
              | some e ↦ rebalanced policy caches calls (failed ("resolving current plan: " <> e))
              | none ↦
                  direct_rebalance lower_rune env policy caches source.cache current template
                    (record { status = policy.status; deployment = md; calls = calls })
            ]
      ]

  -- The MachineDeployment is there.
  unfoldable pub rebalance_deployment :
      Policy F → Caches F → MachineDeployment → Calls → Rebalanced F
  unfolding rebalance_with refrain
  rebalance_deployment policy caches md calls =
      if ltb_ℤ (current_replicas_of md) min_replicas_for_rebalance
      then refrain env insufficient_replicas policy caches calls
      else if replicas_match md.up_to_date_replicas md.status_replicas
      then elim (lookup policy.uid caches) [
        | none ↦ rebalanced policy caches calls done
        | some source ↦ rebalance_with policy caches source md calls
      ]
      else refrain env rollout_in_progress policy caches calls

  unfoldable pub rebalance_policy : Policy F → Caches F → Calls → Rebalanced F
  unfolding rebalance_deployment
  rebalance_policy policy caches calls =
      let asked =
        get_target (target_namespace policy) (ObjectReference.name policy.spec.target_ref)
        ∷ calls in
      if is_cooling policy.spec policy.status (env.clock calls)
      then rebalanced policy caches calls done
      else elim (objects.target asked) [
        | missing e ↦ rebalanced policy caches asked (failed ("getting MachineDeployment: " <> e))
        | unknown e ↦ rebalanced policy caches asked (failed ("getting MachineDeployment: " <> e))
        | found md ↦ rebalance_deployment policy caches md asked
      ]
