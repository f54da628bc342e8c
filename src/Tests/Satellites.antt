-- ===== src/Tests/Satellites.antt =====
-- The cleanup of one satellite on the sample cluster.
use vpsie_k8s_capi_autoscale.Base.{
  pos, ltb_ℤ, since, ◌≡◌, refl, string_eq, inr, false, some, none, [], ◌∷◌, ok, err,
}
use vpsie_k8s_capi_autoscale.Policy.{NodePoolStatus}
use vpsie_k8s_capi_autoscale.World.{Env}
use vpsie_k8s_capi_autoscale.Horizontal.Pass.{Pass}
use vpsie_k8s_capi_autoscale.NodePool.Cleanup.{cleanup_node_pools}
use vpsie_k8s_capi_autoscale.NodePool.Deletion.{
  deletions, deletions_of, cleanup_node_pools-deletions, cleanup_node_pools-uncounted,
}
use vpsie_k8s_capi_autoscale.Tests.Sample.{env, node, spec, pass}

abbrev satellite : NodePoolStatus
satellite = record {
  name = "md-pool-large";
  plan_id = "large";
  plan_nickname = "large";
  replicas = pos 1;
  last_pod_seen = some (pos 0);
}

abbrev before : Pass
before =
    let p = pass "" none in record p { status = record (p.status) { node_pools = satellite ∷ [] } }

-- Twenty minutes and one minute after the last pod was seen.
abbrev late : Env
late = env (pos 1200000000000) [] (ok (pos 0))

abbrev early : Env
early = env (pos 60000000000) [] (ok (pos 0))

cleanup_node_pools-deletions_example :
    deletions_of "md-pool-large" (cleanup_node_pools early (spec false) "default" before).calls ≡ 0
unfolding ltb_ℤ since string_eq
cleanup_node_pools-deletions_example =
    cleanup_node_pools-deletions early (spec false) "default" "md-pool-large" before
      (inr (pos 0, refl, λ _. refl), tt)

-- Twenty minutes later, and no node can be asked for its pods.
abbrev deaf : Env
deaf = record (env (pos 1200000000000) [] (ok (pos 0))) { pod_count = λ _. err "unreachable" }

cleanup_node_pools-uncounted_example :
    ((cleanup_node_pools deaf (spec false) "default" before).status.node_pools ≡ [])
    × (deletions (cleanup_node_pools deaf (spec false) "default" before).calls
        ≡ "md-pool-large" ∷ [])
unfolding ltb_ℤ since
cleanup_node_pools-uncounted_example =
    cleanup_node_pools-uncounted deaf (spec false) "default" satellite (node "n1") (node "n2" ∷ [])
      before (pos 0) refl refl refl (λ _. ("unreachable", refl)) refl (λ _. refl) refl (λ _. refl)
