-- ===== src/Tests/Scaling.antt =====
-- Passes of horizontal scaling that resize the MachineDeployment, on the sample clusters.
use vpsie_k8s_capi_autoscale.Base.{
  ℤ, pos, ◌+ℤ◌, ◌-ℤ◌, ltb_ℤ, leb_ℤ, ◌≡◌, ◌≢◌, refl, inl, inr, Bool, true, false, String, Option,
  none, some, List, [], ◌∷◌, All, arith, ok, err, string_eq,
}
use vpsie_k8s_capi_autoscale.Plan.{Plan}
use vpsie_k8s_capi_autoscale.Utilization.Thresholds.{UtilizationResult}
use vpsie_k8s_capi_autoscale.World.{Env}
use vpsie_k8s_capi_autoscale.Horizontal.Pass.{Pass, Outcome, done, max_replicas_of, min_replicas_of}
use vpsie_k8s_capi_autoscale.Horizontal.Reconcile.{reconcile_horizontal}
use vpsie_k8s_capi_autoscale.Horizontal.Bounds.{
  IsScaleUp, IsScaleDown, reconcile_horizontal-IsScaleUp, reconcile_horizontal-IsScaleDown,
}
use vpsie_k8s_capi_autoscale.Horizontal.Invariant.{
  IsConsistent, Tracks, cordoned, reconcile_horizontal-IsConsistent, reconcile_horizontal-Tracks,
}
use vpsie_k8s_capi_autoscale.Horizontal.DryRun.{Untouched, reconcile_horizontal-Untouched}
use vpsie_k8s_capi_autoscale.Tests.Sample.{
  thousandths, env, spec, pass, pod, idle, deployment, n1-is_named,
}

-- A pending pod, and no drain.
abbrev crowded : Env
crowded = env (pos 0) (pod "p3" "" (pos 100) ∷ []) (ok (pos 0))

abbrev pub settled : Env
settled = env (pos 0) [] (ok (pos 0))

-- No utilization is known, and no plan.
abbrev pub unmeasured : Option (UtilizationResult ℤ)
unmeasured = none

abbrev pub no_plan : Option (Plan ℤ)
no_plan = none

abbrev pub grown : Outcome
grown = reconcile_horizontal crowded (spec false) "c" unmeasured no_plan (pass "" none)

-- One more replica is asked for.
grown_value : grown.0.deployment.replicas ≡ some (pos 3)
unfolding reconcile_horizontal vpsie_k8s_capi_autoscale.Horizontal.Reconcile.with_client
    vpsie_k8s_capi_autoscale.Horizontal.Reconcile.with_pending string_eq ltb_ℤ
    vpsie_k8s_capi_autoscale.Horizontal.Reconcile.scale
    vpsie_k8s_capi_autoscale.Horizontal.Reconcile.relevant_pods
    vpsie_k8s_capi_autoscale.Horizontal.ScaleUp.scale_up leb_ℤ max_replicas_of
    vpsie_k8s_capi_autoscale.Base.add32
grown_value = refl

reconcile_horizontal-IsScaleUp_example : All (IsScaleUp (spec false) (pos 2)) grown.0.calls
unfolding max_replicas_of leb_ℤ
reconcile_horizontal-IsScaleUp_example =
    reconcile_horizontal-IsScaleUp crowded (spec false) "c" unmeasured no_plan (pass "" none) refl
      (omega arith) (omega arith) tt

abbrev pub shrunk : Outcome
shrunk = reconcile_horizontal settled (spec false) "c" unmeasured no_plan (pass "n1" (some (pos 0)))

shrunk_value : shrunk.0.deployment.replicas ≡ some (pos 1)
unfolding reconcile_horizontal vpsie_k8s_capi_autoscale.Horizontal.Reconcile.with_client
    vpsie_k8s_capi_autoscale.Horizontal.Reconcile.with_pending string_eq
    vpsie_k8s_capi_autoscale.Horizontal.Drain.continue_drain ltb_ℤ
    vpsie_k8s_capi_autoscale.Base.since vpsie_k8s_capi_autoscale.Horizontal.Drain.check_pending
    vpsie_k8s_capi_autoscale.Horizontal.Drain.finish_drain vpsie_k8s_capi_autoscale.Base.sub32
    min_replicas_of leb_ℤ
shrunk_value = refl

reconcile_horizontal-IsScaleDown_example : All (IsScaleDown (spec false) (pos 2)) shrunk.0.calls
reconcile_horizontal-IsScaleDown_example =
    reconcile_horizontal-IsScaleDown settled (spec false) "c" unmeasured no_plan
      (pass "n1" (some (pos 0))) n1-is_named (omega arith) (omega arith) tt

reconcile_horizontal-IsConsistent_example : IsConsistent shrunk.0.status
reconcile_horizontal-IsConsistent_example =
    reconcile_horizontal-IsConsistent settled (spec false) "c" unmeasured no_plan
      (pass "n1" (some (pos 0))) (λ e. absurd (n1-is_named e), λ e. ground arith)

abbrev pub started : Outcome
started = reconcile_horizontal settled (spec false) "c" (some idle) no_plan (pass "" none)

-- The drain of the first node starts.
pub started_value :
    (started.1 ≡ done)
    × (started.0.status.draining_node ≡ "n1")
    × (started.0.status.draining_started_at ≡ some (pos 0))
    × (cordoned started.0.calls ≡ "n1" ∷ [])
unfolding reconcile_horizontal vpsie_k8s_capi_autoscale.Horizontal.Reconcile.with_client
    vpsie_k8s_capi_autoscale.Horizontal.Reconcile.with_pending string_eq ltb_ℤ
    vpsie_k8s_capi_autoscale.Horizontal.Reconcile.scale
    vpsie_k8s_capi_autoscale.Horizontal.Reconcile.relevant_pods
    vpsie_k8s_capi_autoscale.Horizontal.ScaleDown.scale_down leb_ℤ min_replicas_of
    vpsie_k8s_capi_autoscale.Horizontal.ScaleDown.is_underutilized
    vpsie_k8s_capi_autoscale.Utilization.Thresholds.effective_cpu_percent
    vpsie_k8s_capi_autoscale.Base.quot vpsie_k8s_capi_autoscale.Horizontal.Pass.down_threshold_of
    vpsie_k8s_capi_autoscale.Utilization.Thresholds.effective_memory_percent
    vpsie_k8s_capi_autoscale.Horizontal.ScaleDown.nodes_fit
    vpsie_k8s_capi_autoscale.Scheduler.Packing.simulate_downscale
    vpsie_k8s_capi_autoscale.Horizontal.Drain.reduced vpsie_k8s_capi_autoscale.Base.add32
    vpsie_k8s_capi_autoscale.Base.add64 vpsie_k8s_capi_autoscale.Base.mul64
    vpsie_k8s_capi_autoscale.Base.since vpsie_k8s_capi_autoscale.Base.sub32
    vpsie_k8s_capi_autoscale.Base.sub64 vpsie_k8s_capi_autoscale.Base.wrap32
    vpsie_k8s_capi_autoscale.Base.wrap64 vpsie_k8s_capi_autoscale.Base.◌*ℤ◌ ◌+ℤ◌ ◌-ℤ◌
    vpsie_k8s_capi_autoscale.Horizontal.ScaleDown.begin_drain
    vpsie_k8s_capi_autoscale.Horizontal.ScaleDown.is_stabilizing
    vpsie_k8s_capi_autoscale.Horizontal.ScaleDown.least_utilized_node
    vpsie_k8s_capi_autoscale.Horizontal.ScaleDown.node_score
    vpsie_k8s_capi_autoscale.Horizontal.ScaleDown.ratio_of
    vpsie_k8s_capi_autoscale.Horizontal.ScaleDown.scan_least
    vpsie_k8s_capi_autoscale.Horizontal.ScaleDown.start_scale_down
    vpsie_k8s_capi_autoscale.Horizontal.ScaleDown.synthetic_plan
    vpsie_k8s_capi_autoscale.Scheduler.Matching.is_daemon_set_pod
    vpsie_k8s_capi_autoscale.Scheduler.Matching.is_mirror_pod
    vpsie_k8s_capi_autoscale.Scheduler.Matching.matches_node_selector
    vpsie_k8s_capi_autoscale.Scheduler.Matching.matches_required_node_affinity
    vpsie_k8s_capi_autoscale.Scheduler.Matching.pod_total_cpu
    vpsie_k8s_capi_autoscale.Scheduler.Matching.pod_total_memory
    vpsie_k8s_capi_autoscale.Scheduler.Matching.tolerates_taints
    vpsie_k8s_capi_autoscale.Scheduler.Packing.check_node
    vpsie_k8s_capi_autoscale.Scheduler.Packing.collect_pods
    vpsie_k8s_capi_autoscale.Scheduler.Packing.larger_first
    vpsie_k8s_capi_autoscale.Scheduler.Packing.pack vpsie_k8s_capi_autoscale.Scheduler.Packing.place
    vpsie_k8s_capi_autoscale.Utilization.Thresholds.highest
    vpsie_k8s_capi_autoscale.Utilization.Thresholds.max
started_value = (refl, refl, refl, refl)

-- A cluster in which the drain fails.
abbrev pub stuck : Env
stuck = env (pos 0) [] (err "no")

abbrev pub leaked : Outcome
leaked = reconcile_horizontal stuck (spec false) "c" (some idle) no_plan (pass "" none)

pub leaked_value : cordoned leaked.0.calls ≡ "n1" ∷ []
unfolding reconcile_horizontal vpsie_k8s_capi_autoscale.Horizontal.Reconcile.with_client
    vpsie_k8s_capi_autoscale.Horizontal.Reconcile.with_pending string_eq ltb_ℤ
    vpsie_k8s_capi_autoscale.Horizontal.Reconcile.scale
    vpsie_k8s_capi_autoscale.Horizontal.Reconcile.relevant_pods
    vpsie_k8s_capi_autoscale.Horizontal.ScaleDown.scale_down leb_ℤ min_replicas_of
    vpsie_k8s_capi_autoscale.Horizontal.ScaleDown.is_underutilized
    vpsie_k8s_capi_autoscale.Utilization.Thresholds.effective_cpu_percent
    vpsie_k8s_capi_autoscale.Base.quot vpsie_k8s_capi_autoscale.Horizontal.Pass.down_threshold_of
    vpsie_k8s_capi_autoscale.Utilization.Thresholds.effective_memory_percent
    vpsie_k8s_capi_autoscale.Horizontal.ScaleDown.nodes_fit
    vpsie_k8s_capi_autoscale.Scheduler.Packing.simulate_downscale
    vpsie_k8s_capi_autoscale.Horizontal.Drain.reduced vpsie_k8s_capi_autoscale.Base.add32
    vpsie_k8s_capi_autoscale.Base.add64 vpsie_k8s_capi_autoscale.Base.mul64
    vpsie_k8s_capi_autoscale.Base.since vpsie_k8s_capi_autoscale.Base.sub32
    vpsie_k8s_capi_autoscale.Base.sub64 vpsie_k8s_capi_autoscale.Base.wrap32
    vpsie_k8s_capi_autoscale.Base.wrap64 vpsie_k8s_capi_autoscale.Base.◌*ℤ◌ ◌+ℤ◌ ◌-ℤ◌
    vpsie_k8s_capi_autoscale.Horizontal.ScaleDown.begin_drain
    vpsie_k8s_capi_autoscale.Horizontal.ScaleDown.is_stabilizing
    vpsie_k8s_capi_autoscale.Horizontal.ScaleDown.least_utilized_node
    vpsie_k8s_capi_autoscale.Horizontal.ScaleDown.node_score
    vpsie_k8s_capi_autoscale.Horizontal.ScaleDown.ratio_of
    vpsie_k8s_capi_autoscale.Horizontal.ScaleDown.scan_least
    vpsie_k8s_capi_autoscale.Horizontal.ScaleDown.start_scale_down
    vpsie_k8s_capi_autoscale.Horizontal.ScaleDown.synthetic_plan
    vpsie_k8s_capi_autoscale.Scheduler.Matching.is_daemon_set_pod
    vpsie_k8s_capi_autoscale.Scheduler.Matching.is_mirror_pod
    vpsie_k8s_capi_autoscale.Scheduler.Matching.matches_node_selector
    vpsie_k8s_capi_autoscale.Scheduler.Matching.matches_required_node_affinity
    vpsie_k8s_capi_autoscale.Scheduler.Matching.pod_total_cpu
    vpsie_k8s_capi_autoscale.Scheduler.Matching.pod_total_memory
    vpsie_k8s_capi_autoscale.Scheduler.Matching.tolerates_taints
    vpsie_k8s_capi_autoscale.Scheduler.Packing.check_node
    vpsie_k8s_capi_autoscale.Scheduler.Packing.collect_pods
    vpsie_k8s_capi_autoscale.Scheduler.Packing.larger_first
    vpsie_k8s_capi_autoscale.Scheduler.Packing.pack vpsie_k8s_capi_autoscale.Scheduler.Packing.place
    vpsie_k8s_capi_autoscale.Utilization.Thresholds.highest
    vpsie_k8s_capi_autoscale.Utilization.Thresholds.max
leaked_value = refl

reconcile_horizontal-Tracks_example : Tracks started.0
reconcile_horizontal-Tracks_example =
    reconcile_horizontal-Tracks settled (spec false) "c" (some idle) no_plan (pass "" none) refl
      started_value.0

reconcile_horizontal-Untouched_example :
    Untouched deployment
      (reconcile_horizontal settled (spec true) "c" (some idle) no_plan (pass "" none))
reconcile_horizontal-Untouched_example =
    reconcile_horizontal-Untouched settled (spec true) "c" (some idle) no_plan (pass "" none) refl
      refl refl tt
