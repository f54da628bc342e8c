-- ===== src/Tests/Clients.antt =====
-- A drain of a node with a pod, a pod that has ended and a pod of a DaemonSet; and a kept client.
use vpsie_k8s_capi_autoscale.Base.{ℤ, pos, ◌≡◌, refl, List, [], ◌∷◌, map, keep, Dict, All, ok, err}
use vpsie_k8s_capi_autoscale.Cluster.{Pod}
use vpsie_k8s_capi_autoscale.Workload.{Server}
use vpsie_k8s_capi_autoscale.Workload.Drain.{drain_node, get_non_system_pod_count}
use vpsie_k8s_capi_autoscale.Workload.Evictions.{
  is_workload, evictions, reverse_onto, key_of, drain_node-evictions, drain_node-count,
}
use vpsie_k8s_capi_autoscale.Workload.Factory.{CachedClient, client_for_cluster}
use vpsie_k8s_capi_autoscale.Workload.Clients.{IsKept, IsAnswer, client_for_cluster-IsSound}
use vpsie_k8s_capi_autoscale.Tests.Sample.{pod, node}

abbrev on_node : List Pod
on_node =
    pod "p1" "n1" (pos 100)
    ∷ record (pod "p2" "n1" (pos 100)) { phase = "Succeeded" }
    ∷ record (pod "p3" "n1" (pos 100)) { owner_kinds = "DaemonSet" ∷ [] }
    ∷ []

abbrev server : Server
server = record {
  kubeconfig = λ _. ok (("value", "config") ∷ []);
  machines = λ _. ok [];
  node = λ _. ok (node "n1");
  updated = λ _. ok tt;
  pods = λ _. ok on_node;
  evicted = λ _. ok tt;
  metrics = λ _. err "no metrics";
}

drain_node-evictions_example :
    (evictions (drain_node server "n1" []).0
      ≡ reverse_onto (map key_of (keep is_workload on_node)) [])
    × ((n : ℤ) × ((drain_node server "n1" []).1 ≡ ok n))
drain_node-evictions_example = drain_node-evictions server "n1" [] on_node refl

drain_node-count_example :
    (drain_node server "n1" []).1 ≡ (get_non_system_pod_count server "n1" []).1
drain_node-count_example = drain_node-count server "n1" [] [] on_node refl refl (λ _. refl)

abbrev kept : Dict CachedClient
kept =
    (
      "default/c",
      record {
        client = record { cluster_name = "c"; namespace = "default"; config = "config" };
        expires_at = pos 5;
      },
    )
    ∷ []

client_for_cluster-IsSound_example :
    let (_, after, result) =
      client_for_cluster server (λ _. ok tt) "d" "default" (pos 1) (pos 2) kept [] in
    All (IsKept server) after × IsAnswer server "default/d" result
unfolding vpsie_k8s_capi_autoscale.Base.string_eq
client_for_cluster-IsSound_example =
    client_for_cluster-IsSound server (λ _. ok tt) "d" "default" (pos 1) (pos 2) kept []
      ((refl, ([], ("value", "config") ∷ [], refl, refl)), tt)
