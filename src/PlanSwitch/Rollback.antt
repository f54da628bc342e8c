-- ===== src/PlanSwitch/Rollback.antt =====
-- On `switchPlan`, and on the passes of `reconcileHorizontal` that follow it
-- (internal/controller/scalingpolicy_controller.go).
use Prim.Native.Char.{Char}
use vpsie_k8s_capi_autoscale.Base.{
  ℤ, ltb_ℤ, since, ◌≡◌, ◌≢◌, ◌∙◌, ap, ◌⊎◌, inl, inr, true, String, Option, some, List, [], ◌∷◌, ok,
  ◌↔◌, arith,
}
use vpsie_k8s_capi_autoscale.Cluster.{Pod}
use vpsie_k8s_capi_autoscale.Float.{Float64}
use vpsie_k8s_capi_autoscale.Plan.{Plan}
use vpsie_k8s_capi_autoscale.Policy.{ScalingPolicySpec, ScalingPolicyStatus}
use vpsie_k8s_capi_autoscale.Utilization.Thresholds.{UtilizationResult}
use vpsie_k8s_capi_autoscale.World.{
  Calls, Env, MachineDeployment, client_for_cluster, get_template, create_template,
  patch_infrastructure, present, absent,
}
use vpsie_k8s_capi_autoscale.Horizontal.Pass.{
  Pass, Outcome, done, current_replicas_of, ready_replicas_of,
}
use vpsie_k8s_capi_autoscale.Horizontal.Rollout.{
  default_rollout_stall_timeout, await_rollout, revert_template, rollout_has_stalled,
}
use vpsie_k8s_capi_autoscale.Horizontal.Reconcile.{
  reconcile_horizontal, with_client, with_pending, relevant_pods,
}
use vpsie_k8s_capi_autoscale.Horizontal.Cases.{asked, counted}
use vpsie_k8s_capi_autoscale.PlanSwitch.{
  MachineTemplate, new_template, point_to, provide, switch_plan,
}

-- The template was found, or was absent and could be created.
abbrev pub IsProvided : {K : Type 0} → Env → MachineTemplate K → Calls → Type 0
IsProvided env t calls =
    (env.template_found (get_template t.namespace t.name ∷ calls) ≡ present)
    ⊎ ((env.template_found (get_template t.namespace t.name ∷ calls) ≡ absent)
        × (env.created (
              create_template t.namespace t.name t.resource_identifier
              ∷ get_template t.namespace t.name
              ∷ calls)
            ≡ ok tt))

-- The patches of the infrastructure reference that calls make, the newest first: the name of the
-- MachineDeployment and the template that it is to point to.
abbrev pub retargets : Calls → List (String × String)
retargets [] = []
retargets (patch_infrastructure name template ∷ calls) = (name, template) ∷ retargets calls
retargets (_ ∷ calls) = retargets calls

-- The MachineDeployment and the status are as they were, and nothing was patched.
abbrev pub IsUnmoved : Pass → Outcome → Type 0
IsUnmoved p (q, exit) =
    (q.deployment ≡ p.deployment)
    × (q.status ≡ p.status)
    × (exit ≢ done)
    × (retargets q.calls ≡ retargets p.calls)

-- The MachineDeployment is asked to point to the template, by the last call and by no other; it does so
-- in memory too, and the status notes the one before. The pass ends without an error exactly when that
-- call succeeds.
abbrev pub IsMoved : Env → String → Pass → Outcome → Type 0
IsMoved env template p (q, exit) =
    (q.deployment ≡ record (p.deployment) { infrastructure_name = template })
    × (q.status ≡ record (p.status) {
      previous_infra_template = MachineDeployment.infrastructure_name p.deployment;
    })
    × (retargets q.calls ≡ (p.deployment.name, template) ∷ retargets p.calls)
    × ((exit ≡ done) ↔ (env.patched q.calls ≡ ok tt))

provide-cases :
    {K : Type 0} (env : Env) (t : MachineTemplate K) (p : Pass)
    → IsUnmoved p (provide env t p)
      ⊎ (IsProvided env t p.calls × IsMoved env t.name p (provide env t p))
unfolding provide point_to
provide-cases env t p = ground arith

module _ {F K : Type 0} (lower_rune : Char → Char) where
  -- Whatever fails, a switch of the plan either ends with an error and leaves the MachineDeployment
  -- and the status as they were, without any patch of the infrastructure reference, or it patches that
  -- reference once, to the template of the new plan, which was found or has been created. Then the
  -- MachineDeployment in memory, all else in it as it was, points to that template, the template
  -- before is noted, even if the patch fails, and the switch ends without an error exactly when the
  -- patch succeeds.
  pub switch_plan-IsProvided :
      (env : Env) (plan : Plan F) (current : MachineTemplate K) (p : Pass)
      → let t = new_template lower_rune p.deployment plan current in
        let out = switch_plan lower_rune env plan (some current) p in
        IsUnmoved p out ⊎ (IsProvided env t p.calls × IsMoved env t.name p out)
  unfolding switch_plan
  switch_plan-IsProvided env plan current p =
      provide-cases env (new_template lower_rune p.deployment plan current) p

-- A rollout that has stalled after a switch is taken back.
await_rollout-reverts :
    (env : Env) (p : Pass) (template : String) (md : MachineDeployment) (last : ℤ)
    → ((calls : Calls) → env.patched calls ≡ ok tt)
    → p.status.previous_infra_template ≡ md.infrastructure_name
    → p.deployment ≡ record md { infrastructure_name = template }
    → md.infrastructure_name ≢ ""
    → p.status.last_scale_time ≡ some last
    → ltb_ℤ default_rollout_stall_timeout (since (env.clock p.calls) last) ≡ true
    → ((await_rollout env p).1 ≡ done)
      × ((await_rollout env p).0.deployment ≡ md)
      × ((await_rollout env p).0.status.previous_infra_template ≡ "")
      × (retargets (await_rollout env p).0.calls
          ≡ (md.name, md.infrastructure_name) ∷ retargets p.calls)
unfolding await_rollout rollout_has_stalled revert_template
await_rollout-reverts env p template md last patched noted moved named scaled late =
    let answer =
      patched (patch_infrastructure p.deployment.name p.status.previous_infra_template ∷ p.calls) in
    ground arith

module _ {F : Type 0} ⦃f : Float64 F⦄ where
  -- Without a drain and with replicas that are not ready, the pass waits for the rollout.
  reconcile_horizontal-await_rollout :
      (env : Env) (spec : ScalingPolicySpec) (cluster_name : String)
      (util : Option (UtilizationResult F)) (plan : Option (Plan F)) (p : Pass) (pods : List Pod)
      → spec.horizontal.enabled ≡ true
      → env.has_workload_clients ≡ true
      → env.connect (client_for_cluster cluster_name p.deployment.namespace ∷ p.calls) ≡ ok tt
      → env.pending_pods (asked cluster_name p).calls ≡ ok pods
      → p.status.draining_node ≡ ""
      → ltb_ℤ (ready_replicas_of p.deployment) (current_replicas_of p.deployment) ≡ true
      → reconcile_horizontal env spec cluster_name util plan p
        ≡ await_rollout env (counted (relevant_pods spec plan pods) (asked cluster_name p))
  unfolding reconcile_horizontal with_client with_pending
  reconcile_horizontal-await_rollout env spec cluster_name util plan p pods on clients reached
        listed idle waiting =
      ground arith

  -- After a successful switch of the plan, the first pass that finds replicas not ready takes the
  -- switch back: it patches the infrastructure reference once, to the very template before it, and the
  -- MachineDeployment in memory is the one before the switch, if the last horizontal scaling, however
  -- long before the switch, is more than fifteen minutes ago. Conditions: the pass sees the MachineDeployment and
  -- the status that the switch left, no drain is in progress, horizontal scaling is enabled, every
  -- call succeeds, and the template before the switch had a name.
  pub switch_plan-reverts :
      {K : Type 0} (lower_rune : Char → Char) (first env : Env) (new_plan : Plan F)
      (current : MachineTemplate K) (before p : Pass) (spec : ScalingPolicySpec)
      (cluster_name : String) (util : Option (UtilizationResult F)) (plan : Option (Plan F))
      (pods : List Pod) (last : ℤ)
      → (switch_plan lower_rune first new_plan (some current) before).1 ≡ done
      → p.status ≡ (switch_plan lower_rune first new_plan (some current) before).0.status
      → p.deployment ≡ (switch_plan lower_rune first new_plan (some current) before).0.deployment
      → before.deployment.infrastructure_name ≢ ""
      → before.status.draining_node ≡ ""
      → before.status.last_scale_time ≡ some last
      → spec.horizontal.enabled ≡ true
      → env.has_workload_clients ≡ true
      → env.connect (client_for_cluster cluster_name p.deployment.namespace ∷ p.calls) ≡ ok tt
      → env.pending_pods (asked cluster_name p).calls ≡ ok pods
      → ((calls : Calls) → env.patched calls ≡ ok tt)
      → ltb_ℤ (ready_replicas_of p.deployment) (current_replicas_of p.deployment) ≡ true
      → ltb_ℤ default_rollout_stall_timeout (since (env.clock (asked cluster_name p).calls) last)
        ≡ true
      → let (q, exit) = reconcile_horizontal env spec cluster_name util plan p in
        (exit ≡ done)
        × (q.deployment ≡ before.deployment)
        × (q.status.previous_infra_template ≡ "")
        × (retargets q.calls
            ≡ (before.deployment.name, before.deployment.infrastructure_name) ∷ retargets p.calls)
  switch_plan-reverts lower_rune first env new_plan current before p spec cluster_name util plan
        pods last switched same_status same_deployment named idle scaled on clients reached listed
        patched waiting late =
      elim (switch_plan-IsProvided lower_rune first new_plan current before) [
        | inl (_, _, refused, _) ↦ absurd (refused switched)
        | inr (_, (moved, noted, _, _)) ↦
            let left = same_status ∙ noted in
            rw
              (reconcile_horizontal-await_rollout env spec cluster_name util plan p pods on clients
                reached listed (ap (λ s. ScalingPolicyStatus.draining_node s) left ∙ idle) waiting)
              (await_rollout-reverts env
                (counted (relevant_pods spec plan pods) (asked cluster_name p))
                (new_template lower_rune before.deployment new_plan current).name before.deployment
                last patched (ap (λ s. ScalingPolicyStatus.previous_infra_template s) left)
                (same_deployment ∙ moved) named
                (ap (λ s. ScalingPolicyStatus.last_scale_time s) left ∙ scaled) late)
      ]
