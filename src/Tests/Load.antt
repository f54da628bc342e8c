-- ===== src/Tests/Load.antt =====
-- The load of the sample cluster.
use vpsie_k8s_capi_autoscale.Base.{
  ℤ, pos, ltb_ℤ, ◌*ℤ◌, ◌≡◌, ◌≢◌, refl, true, List, [], ◌∷◌, map, ok,
}
use vpsie_k8s_capi_autoscale.Cluster.{Pod}
use vpsie_k8s_capi_autoscale.World.{Env}
use vpsie_k8s_capi_autoscale.Utilization.Thresholds.{UtilizationResult, evaluate_thresholds}
use vpsie_k8s_capi_autoscale.Utilization.Calculator.{calculate}
use vpsie_k8s_capi_autoscale.Utilization.Grouping.{
  pods_on, load_of, calculate-nodes, evaluate_thresholds-not_both,
}
use vpsie_k8s_capi_autoscale.Tests.Sample.{thousandths, thousandths-IsOrdered, env, node, pod, idle}

abbrev cluster : Env
cluster = env (pos 0) [] (ok (pos 0))

abbrev pods : List Pod
pods = pod "p1" "n1" (pos 100) ∷ pod "p2" "n2" (pos 200) ∷ []

calculate-nodes_example :
    (out : UtilizationResult ℤ) × ((calculate cluster [] "md").1 ≡ ok out)
    × (out.nodes ≡ map (λ n. load_of n (pods_on n.name pods)) (node "n1" ∷ node "n2" ∷ []))
calculate-nodes_example =
    calculate-nodes cluster [] "md" (node "n1") (node "n2" ∷ []) pods refl refl

evaluate_thresholds-not_both_example : evaluate_thresholds idle (pos 80) (pos 30) ≢ (true, true)
unfolding ltb_ℤ ◌*ℤ◌
evaluate_thresholds-not_both_example =
    evaluate_thresholds-not_both thousandths-IsOrdered idle (pos 80) (pos 30) refl refl
