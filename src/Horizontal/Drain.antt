-- ===== src/Horizontal/Drain.antt =====
-- A pass while a drain is in progress: time out, wait, abort, or reduce the replicas.
use vpsie_k8s_capi_autoscale.Base.{
  ℤ, pos, sub32, ltb_ℤ, since, ◌<>◌, Bool, true, false, none, some, [], ◌∷◌, ok, err, if◌then◌else◌,
}
use vpsie_k8s_capi_autoscale.World.{
  Env, list_pending_pods, uncordon_node, get_non_system_pod_count, patch_replicas,
  horizontal_scaling, drain_timeout, drain_in_progress, drain_aborted, scale_down_replicas,
}
use vpsie_k8s_capi_autoscale.Horizontal.Pass.{
  Pass, Outcome, done, failed, call, condition, event, now, minutes,
}

abbrev pub default_drain_timeout : ℤ
default_drain_timeout = minutes 5

abbrev clear_drain : Pass → Pass
clear_drain p = record p {
  status = record (p.status) { draining_node = ""; draining_started_at = none };
}

unfoldable pub drain_timed_out : Env → Pass → Bool
drain_timed_out env p = elim p.status.draining_started_at [
  | none ↦ false
  | some t ↦ ltb_ℤ default_drain_timeout (since (now env p) t)
]

-- The drained node is made schedulable again, whether or not that call succeeds.
unfoldable pub time_out_drain : Pass → Outcome
time_out_drain p =
    let p = call (uncordon_node p.status.draining_node) p in
    let p = condition horizontal_scaling false drain_timeout (clear_drain p) in
    (event "DrainTimeout" p, done)

unfoldable pub abort_drain : Pass → Outcome
abort_drain p =
    let p = call (uncordon_node p.status.draining_node) p in
    (condition horizontal_scaling false drain_aborted (clear_drain p), done)

-- One replica fewer, but not below the minimum.
unfoldable pub reduced : ℤ → ℤ → ℤ
reduced min_replicas current =
    let desired = sub32 current (pos 1) in
    if ltb_ℤ desired min_replicas then min_replicas else desired

unfoldable pub finish_drain : Env → ℤ → ℤ → Pass → Outcome
unfolding reduced
finish_drain env min_replicas current p =
    let desired = reduced min_replicas current in
    let p = record p { deployment = record (p.deployment) { replicas = some desired } } in
    let p = call (patch_replicas p.deployment.name desired) p in
    elim (env.patched p.calls) [
      | err e ↦ (p, failed ("patching replicas after drain: " <> e))
      | ok _ ↦
          let p = record p {
            status = record (p.status) {
              last_scale_time = some (now env p);
              current_replicas = desired;
            };
          } in
          let p = condition horizontal_scaling true scale_down_replicas (clear_drain p) in
          (event "HorizontalScaleDown" p, done)
    ]

-- The node is empty: are there pods that found no other place?
unfoldable pub check_pending : Env → ℤ → ℤ → Pass → Outcome
unfolding abort_drain
check_pending env min_replicas current p =
    let p = call list_pending_pods p in
    elim (env.pending_pods p.calls) [
      | err e ↦ (p, failed ("listing pending pods after drain: " <> e))
      | ok [] ↦ finish_drain env min_replicas current p
      | ok (pod ∷ pods) ↦ abort_drain p
    ]

unfoldable pub continue_drain : Env → ℤ → ℤ → Pass → Outcome
unfolding drain_timed_out time_out_drain
continue_drain env min_replicas current p =
    let node = p.status.draining_node in
    if drain_timed_out env p
    then time_out_drain p
    else let p = call (get_non_system_pod_count node) p in
      elim (env.pod_count p.calls) [
        | err e ↦ (p, failed ("checking drain status for " <> node <> ": " <> e))
        | ok remaining ↦
            if ltb_ℤ (pos 0) remaining
            then (condition horizontal_scaling true drain_in_progress p, done)
            else check_pending env min_replicas current p
      ]
