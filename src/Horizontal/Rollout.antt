-- ===== src/Horizontal/Rollout.antt =====
-- A pass while not all replicas are ready: wait, or after a stall go back to the old template.
use vpsie_k8s_capi_autoscale.Base.{
  ℤ, ltb_ℤ, since, ◌<>◌, Bool, true, false, none, some, ok, err, ◌==◌, string_eq, if◌then◌else◌,
}
use vpsie_k8s_capi_autoscale.World.{
  Env, patch_infrastructure, plan_selected, horizontal_scaling, template_reverted, rollout_stalled,
  rollout_in_progress,
}
use vpsie_k8s_capi_autoscale.Horizontal.Pass.{
  Pass, Outcome, done, failed, call, condition, event, now, minutes,
}

abbrev pub default_rollout_stall_timeout : ℤ
default_rollout_stall_timeout = minutes 15

unfoldable pub rollout_has_stalled : Env → Pass → Bool
rollout_has_stalled env p = elim p.status.last_scale_time [
  | none ↦ false
  | some t ↦ ltb_ℤ default_rollout_stall_timeout (since (now env p) t)
]

abbrev pub forget_template : Pass → Pass
forget_template p = record p { status = record (p.status) { previous_infra_template = "" } }

unfoldable pub revert_template : Env → Pass → Outcome
revert_template env p =
    let template = p.status.previous_infra_template in
    let p = record p { deployment = record (p.deployment) { infrastructure_name = template } } in
    let p = call (patch_infrastructure p.deployment.name template) p in
    elim (env.patched p.calls) [
      | err e ↦ (
        p,
        failed (
            "reverting MachineDeployment " <> p.deployment.name <> " to template " <> template
            <> ": " <> e),
      )
      | ok _ ↦
          let p = condition plan_selected false template_reverted (forget_template p) in
          (event "TemplateReverted" p, done)
    ]

unfoldable pub await_rollout : Env → Pass → Outcome
unfolding rollout_has_stalled revert_template
await_rollout env p =
    if rollout_has_stalled env p
    then if p.status.previous_infra_template == ""
      then (event "RolloutStalled" (condition horizontal_scaling false rollout_stalled p), done)
      else revert_template env p
    else (condition horizontal_scaling true rollout_in_progress p, done)
