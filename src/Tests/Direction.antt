-- ===== src/Tests/Direction.antt =====
-- A cluster with little load, for which the answer is to scale down.
use vpsie_k8s_capi_autoscale.Base.{
  ℤ, pos, ◌≡◌, refl, true, false, Option, none, some, List, [], ◌∷◌, All, string_eq, arith,
}
use vpsie_k8s_capi_autoscale.Cluster.{Pod}
use vpsie_k8s_capi_autoscale.Plan.{Plan}
use vpsie_k8s_capi_autoscale.Scheduler.Matching.{
  is_daemon_set_pod, is_mirror_pod, pod_total_cpu, pod_total_memory,
}
use vpsie_k8s_capi_autoscale.Scheduler.Packing.{alloc_cpu, alloc_memory, virtual_node, collect_pods}
use vpsie_k8s_capi_autoscale.Scheduler.Spec.{HasRequests, IsPacking}
use vpsie_k8s_capi_autoscale.Selector.{direction_down}
use vpsie_k8s_capi_autoscale.Utilization.Thresholds.{UtilizationResult}
use vpsie_k8s_capi_autoscale.Horizontal.DryRun.{IsReadOnly}
use vpsie_k8s_capi_autoscale.Horizontal.Pass.{Pass}
use vpsie_k8s_capi_autoscale.Direction.{Decision, decided, determine_direction}
use vpsie_k8s_capi_autoscale.Direction.Verdict.{
  needs, determine_direction-IsPacking, determine_direction-Untouched,
}
use vpsie_k8s_capi_autoscale.Tests.Sample.{
  thousandths, load, pod, pass, small, spec, sort_slice-Perm,
}
use vpsie_k8s_capi_autoscale.Tests.Scaling.{settled}

abbrev low : UtilizationResult ℤ
low = record {
  scheduled_cpu_percent = pos 3700;
  scheduled_memory_percent = pos 0;
  actual_cpu_percent = pos 0;
  actual_memory_percent = pos 0;
  metrics_available = false;
  nodes =
      load "n1" (pod "p1" "n1" (pos 100) ∷ [])
      ∷ record (load "n2" (pod "p2" "n2" (pos 200) ∷ [])) { requested_cpu = pos 200 }
      ∷ [];
  source = "requests";
}

low-HasRequests : All HasRequests (collect_pods low.nodes)
unfolding collect_pods is_daemon_set_pod is_mirror_pod string_eq pod_total_cpu pod_total_memory
low-HasRequests = ((omega arith, omega arith), ((omega arith, omega arith), tt))

abbrev answer : Pass × Decision ℤ
answer = determine_direction settled (spec false) (some small) "c" (pass "" none)

answer_value : answer.1 ≡ decided direction_down (some low)
unfolding determine_direction vpsie_k8s_capi_autoscale.Direction.ask_cluster
    vpsie_k8s_capi_autoscale.Direction.measure vpsie_k8s_capi_autoscale.Direction.judge_load
    vpsie_k8s_capi_autoscale.Direction.judge_downscale
    vpsie_k8s_capi_autoscale.Direction.up_threshold_of vpsie_k8s_capi_autoscale.Base.quot
    vpsie_k8s_capi_autoscale.Base.add64 vpsie_k8s_capi_autoscale.Base.mul64
    vpsie_k8s_capi_autoscale.Base.sub64 vpsie_k8s_capi_autoscale.Base.wrap64
    vpsie_k8s_capi_autoscale.Base.ltb_ℤ vpsie_k8s_capi_autoscale.Base.leb_ℤ
    vpsie_k8s_capi_autoscale.Base.◌*ℤ◌ vpsie_k8s_capi_autoscale.Base.◌+ℤ◌
    vpsie_k8s_capi_autoscale.Base.◌-ℤ◌ string_eq
    vpsie_k8s_capi_autoscale.Utilization.Calculator.calculate
    vpsie_k8s_capi_autoscale.Utilization.Calculator.calculate_nodes
    vpsie_k8s_capi_autoscale.Utilization.Calculator.calculate_metrics
    vpsie_k8s_capi_autoscale.Utilization.Calculator.group_pods
    vpsie_k8s_capi_autoscale.Utilization.Calculator.request_containers
    vpsie_k8s_capi_autoscale.Utilization.Calculator.request_pods
    vpsie_k8s_capi_autoscale.Utilization.Calculator.utilization_of
    vpsie_k8s_capi_autoscale.Utilization.Calculator.utilizations
    vpsie_k8s_capi_autoscale.Utilization.Calculator.total_allocatable
    vpsie_k8s_capi_autoscale.Utilization.Calculator.total_requested
    vpsie_k8s_capi_autoscale.Utilization.Calculator.percent
    vpsie_k8s_capi_autoscale.Utilization.Calculator.scheduled_result
    vpsie_k8s_capi_autoscale.Utilization.Calculator.with_metrics
    vpsie_k8s_capi_autoscale.Utilization.Thresholds.max
    vpsie_k8s_capi_autoscale.Utilization.Thresholds.min
    vpsie_k8s_capi_autoscale.Utilization.Thresholds.highest
    vpsie_k8s_capi_autoscale.Utilization.Thresholds.lowest
    vpsie_k8s_capi_autoscale.Utilization.Thresholds.evaluate_thresholds
    vpsie_k8s_capi_autoscale.Horizontal.Pass.down_threshold_of
    vpsie_k8s_capi_autoscale.Scheduler.Matching.matches_node_selector
    vpsie_k8s_capi_autoscale.Scheduler.Matching.matches_required_node_affinity
    vpsie_k8s_capi_autoscale.Scheduler.Matching.tolerates_taints is_daemon_set_pod is_mirror_pod
    pod_total_cpu pod_total_memory collect_pods
    vpsie_k8s_capi_autoscale.Scheduler.Packing.simulate_downscale
    vpsie_k8s_capi_autoscale.Scheduler.Packing.check_node
    vpsie_k8s_capi_autoscale.Scheduler.Packing.larger_first
    vpsie_k8s_capi_autoscale.Scheduler.Packing.pack vpsie_k8s_capi_autoscale.Scheduler.Packing.place
answer_value = refl

determine_direction-IsPacking_example :
    (needs (spec false) low ≡ (false, true))
    × ((current : Plan ℤ) × (bins : List (List Pod)) × (some small ≡ some current)
        × IsPacking settled.parse_quantity
            (virtual_node low.nodes (alloc_cpu current) (alloc_memory current))
            2
            (collect_pods low.nodes)
            bins)
determine_direction-IsPacking_example =
    determine_direction-IsPacking settled (spec false) (some small) "c" low (pass "" none)
      sort_slice-Perm low-HasRequests answer_value

determine_direction-Untouched_example :
    All IsReadOnly answer.0.calls
    × (answer.0.deployment ≡ (pass "" none).deployment)
    × (answer.0.status ≡ (pass "" none).status)
determine_direction-Untouched_example =
    determine_direction-Untouched settled (spec false) (some small) "c" (pass "" none) tt
