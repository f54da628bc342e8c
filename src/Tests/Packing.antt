-- ===== src/Tests/Packing.antt =====
-- A simulation that answers that one node is enough, on the sample nodes.
use vpsie_k8s_capi_autoscale.Base.{
  ℤ, pos, ◌≡◌, refl, Bool, true, Option, none, some, List, [], ◌∷◌, All, string_eq, arith,
}
use vpsie_k8s_capi_autoscale.Cluster.{Pod}
use vpsie_k8s_capi_autoscale.Scheduler.Matching.{
  is_daemon_set_pod, is_mirror_pod, pod_total_cpu, pod_total_memory,
}
use vpsie_k8s_capi_autoscale.Scheduler.Packing.{
  SimulationResult, all_fit, alloc_cpu, alloc_memory, virtual_node, collect_pods,
  simulate_downscale,
}
use vpsie_k8s_capi_autoscale.Scheduler.Spec.{HasRequests, IsPacking}
use vpsie_k8s_capi_autoscale.Scheduler.Safety.{simulate_downscale-IsPacking}
use vpsie_k8s_capi_autoscale.Tests.Sample.{small, loads, sort_slice-Perm}

pub loads-HasRequests : All HasRequests (collect_pods loads)
unfolding collect_pods is_daemon_set_pod is_mirror_pod string_eq pod_total_cpu pod_total_memory
loads-HasRequests = ((omega arith, omega arith), ((omega arith, omega arith), tt))

abbrev simulated : SimulationResult
simulated = record { safe = true; blocking_pods = []; message = all_fit 2 (pos 1) "small" }

simulated_value :
    simulate_downscale (λ _. none) (λ _ pods. pods) loads small (pos 1) ≡ some simulated
unfolding simulate_downscale vpsie_k8s_capi_autoscale.Base.leb_ℤ
    vpsie_k8s_capi_autoscale.Scheduler.Packing.pack collect_pods is_daemon_set_pod string_eq
    is_mirror_pod vpsie_k8s_capi_autoscale.Scheduler.Packing.place
    vpsie_k8s_capi_autoscale.Scheduler.Packing.check_node vpsie_k8s_capi_autoscale.Base.ltb_ℤ
    vpsie_k8s_capi_autoscale.Base.sub64 vpsie_k8s_capi_autoscale.Base.mul64 pod_total_cpu
    pod_total_memory vpsie_k8s_capi_autoscale.Scheduler.Matching.tolerates_taints
    vpsie_k8s_capi_autoscale.Scheduler.Matching.matches_node_selector
    vpsie_k8s_capi_autoscale.Scheduler.Matching.matches_required_node_affinity
simulated_value = refl

simulate_downscale-IsPacking_example :
    (bins : List (List Pod)) × IsPacking
      (λ _. none)
      (virtual_node loads (alloc_cpu small) (alloc_memory small))
      1
      (collect_pods loads)
      bins
simulate_downscale-IsPacking_example =
    simulate_downscale-IsPacking (λ _. none) (λ _ pods. pods) loads small (pos 1) simulated
      sort_slice-Perm loads-HasRequests simulated_value refl
