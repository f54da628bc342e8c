-- ===== src/Tests/Draining.antt =====
-- The start and the ends of a drain, on the sample clusters.
use mathlib.Core.Path.{subst}
use vpsie_k8s_capi_autoscale.Base.{
  ℤ, pos, ltb_ℤ, since, ◌≡◌, ◌∙◌, sym, refl, Bool, true, false, String, ◌<>◌, Option, none, some,
  List, [], ◌∷◌, All, pos_part, ok, err, string_eq, arith,
}
use vpsie_k8s_capi_autoscale.Cluster.{Pod}
use vpsie_k8s_capi_autoscale.Plan.{NodeUtilization}
use vpsie_k8s_capi_autoscale.World.{Env}
use vpsie_k8s_capi_autoscale.Scheduler.Packing.{alloc_cpu, alloc_memory, virtual_node, collect_pods}
use vpsie_k8s_capi_autoscale.Scheduler.Spec.{IsPacking}
use vpsie_k8s_capi_autoscale.Horizontal.Pass.{Pass, Outcome, done, minutes, min_replicas_of}
use vpsie_k8s_capi_autoscale.Horizontal.Drain.{reduced}
use vpsie_k8s_capi_autoscale.Horizontal.ScaleDown.{synthetic_plan}
use vpsie_k8s_capi_autoscale.Horizontal.Reconcile.{reconcile_horizontal}
use vpsie_k8s_capi_autoscale.Horizontal.Safety.{reconcile_horizontal-IsPacking}
use vpsie_k8s_capi_autoscale.Horizontal.DrainEnds.{
  resizes, IsReduced, reconcile_horizontal_finishes,
}
use vpsie_k8s_capi_autoscale.Horizontal.Recovery.{
  uncordoned, Leaks, reconcile_horizontal_recovers, reconcile_horizontal-Leaks,
}
use vpsie_k8s_capi_autoscale.Tests.Sample.{
  thousandths, env, spec, pass, idle, loads, n1-is_named, sort_slice-Perm,
}
use vpsie_k8s_capi_autoscale.Tests.Packing.{loads-HasRequests}
use vpsie_k8s_capi_autoscale.Tests.Scaling.{
  unmeasured, no_plan, settled, stuck, started, started_value, leaked, leaked_value,
}

-- Ten minutes after the start of the drain.
abbrev late : Env
late = env (pos 600000000000) [] (ok (pos 0))

-- The pass that sees what the start of the drain has left.
abbrev resumed : Pass
resumed = record { status = started.0.status; deployment = started.0.deployment; calls = [] }

abbrev recovered : Outcome
recovered = reconcile_horizontal late (spec false) "c" unmeasured no_plan resumed

reconcile_horizontal_recovers_example :
    (recovered.1 ≡ done)
    × (recovered.0.status.draining_node ≡ "")
    × (recovered.0.status.draining_started_at ≡ none)
    × (recovered.0.deployment ≡ started.0.deployment)
    × (uncordoned recovered.0.calls ≡ "n1" ∷ [])
    × (resizes recovered.0.calls ≡ [])
unfolding ltb_ℤ since
reconcile_horizontal_recovers_example =
    reconcile_horizontal_recovers settled late (spec false) (spec false) "c" "c" (some idle)
      unmeasured no_plan no_plan (pass "" none) resumed "n1" [] refl (λ _. refl, λ _. refl)
      started_value.0 started_value.3 n1-is_named refl refl refl refl refl
      (λ start e.
        let same : pos 0 ≡ start = let known = started_value.2 in ground arith in
        subst (λ t. ltb_ℤ (minutes 5) (since (pos 600000000000) t) ≡ true) same refl)

-- Even in a dry run, a drain that ends takes a replica away.
abbrev finished : Outcome
finished =
    reconcile_horizontal settled (spec true) "c" unmeasured no_plan (pass "n1" (some (pos 0)))

reconcile_horizontal_finishes_example :
    IsReduced (min_replicas_of (spec true).horizontal) (pos 2) (pass "n1" (some (pos 0))) finished
unfolding ltb_ℤ since reduced min_replicas_of vpsie_k8s_capi_autoscale.Base.sub32
    vpsie_k8s_capi_autoscale.Base.leb_ℤ
reconcile_horizontal_finishes_example =
    reconcile_horizontal_finishes settled (spec true) "c" unmeasured no_plan
      (pass "n1" (some (pos 0))) (pos 0) [] refl refl refl refl refl refl (λ _. refl) n1-is_named
      refl refl

-- The next pass sees the status that the failed drain has left.
abbrev after_leak : Pass
after_leak = record { status = leaked.0.status; deployment = leaked.0.deployment; calls = [] }

reconcile_horizontal-Leaks_example :
    Leaks leaked
    × (uncordoned
          (reconcile_horizontal settled (spec false) "c" unmeasured no_plan after_leak).0.calls
        ≡ [])
reconcile_horizontal-Leaks_example =
    reconcile_horizontal-Leaks stuck settled (spec false) (spec false) "c" "c" (some idle)
      unmeasured no_plan no_plan (pass "" none) after_leak refl refl (λ _. refl) (λ _. ("no", refl))
      (λ e. let clash = sym leaked_value ∙ e in ground arith) refl

reconcile_horizontal-IsPacking_example :
    (n : NodeUtilization) × (ns : List NodeUtilization) × (bins : List (List Pod)) × (loads
      ≡ n ∷ ns)
    × IsPacking settled.parse_quantity
        (virtual_node loads
          (alloc_cpu (synthetic_plan {F = ℤ} n))
          (alloc_memory (synthetic_plan {F = ℤ} n)))
        1
        (collect_pods loads)
        bins
unfolding reduced min_replicas_of ltb_ℤ vpsie_k8s_capi_autoscale.Base.sub32
    vpsie_k8s_capi_autoscale.Base.leb_ℤ
reconcile_horizontal-IsPacking_example =
    reconcile_horizontal-IsPacking ℤ settled (spec false) "c" idle no_plan (pass "" none)
      sort_slice-Perm loads-HasRequests refl (λ e. n1-is_named (sym started_value.1 ∙ e))
