-- ===== src/Horizontal/ScaleUp.antt =====
-- A pass with pending pods: one replica more, up to the maximum.
use vpsie_k8s_capi_autoscale.Base.{
  ℤ, pos, add32, ltb_ℤ, leb_ℤ, ◌<>◌, Bool, true, false, some, ok, err, if◌then◌else◌,
}
use vpsie_k8s_capi_autoscale.World.{
  Env, patch_replicas, horizontal_scaling, max_replicas_reached, dry_run, scale_up_replicas,
}
use vpsie_k8s_capi_autoscale.Horizontal.Pass.{
  Pass, Outcome, done, failed, call, condition, event, now,
}

unfoldable pub raised : ℤ → ℤ → ℤ
raised max_replicas current =
    let desired = add32 current (pos 1) in
    if ltb_ℤ max_replicas desired then max_replicas else desired

unfoldable pub patch_up : Env → ℤ → Pass → Outcome
patch_up env desired p =
    let p = record p { deployment = record (p.deployment) { replicas = some desired } } in
    let p = call (patch_replicas p.deployment.name desired) p in
    elim (env.patched p.calls) [
      | err e ↦ (p, failed ("patching replicas: " <> e))
      | ok _ ↦
          let p = record p {
            status = record (p.status) {
              last_scale_time = some (now env p);
              current_replicas = desired;
            };
          } in
          (event "HorizontalScaleUp" (condition horizontal_scaling true scale_up_replicas p), done)
    ]

unfoldable pub scale_up : Env → Bool → ℤ → ℤ → Pass → Outcome
unfolding raised patch_up
scale_up env is_dry max_replicas current p =
    if leb_ℤ max_replicas current
    then (condition horizontal_scaling false max_replicas_reached p, done)
    else let desired = raised max_replicas current in
      let p = record p { status = record (p.status) { desired_replicas = desired } } in
      if is_dry then (condition horizontal_scaling true dry_run p, done) else patch_up env desired p
