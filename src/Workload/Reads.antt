-- ===== src/Workload/Reads.antt =====
-- internal/workload/client.go: the lists of nodes, pods and metrics.
use vpsie_k8s_capi_autoscale.Base.{
  String, ◌<>◌, Bool, ◌&&◌, not, ◌||◌, none, some, List, [], ◌∷◌, ◌++◌, Result, ok, err, keep, any,
  contains, ◌==◌, string_eq,
}
use vpsie_k8s_capi_autoscale.Cluster.{Pod, PodCondition, Node, NodeMetrics}
use vpsie_k8s_capi_autoscale.Workload.{
  Machine, Requests, Server, Client, list_machines, get_node, list_pods_on, list_pods_pending,
  list_node_metrics,
}

abbrev pub node_names : List Machine → List String
node_names [] = []
node_names (m ∷ ms) =
    let rest = node_names ms in elim (Machine.node_ref m) [ none ↦ rest | some n ↦ n ∷ rest ]

-- A node that cannot be read is passed over.
unfoldable pub get_nodes : Server → List String → Requests → Requests × List Node
get_nodes server [] requests = (requests, [])
get_nodes server (name ∷ names) requests =
    let asked = get_node name ∷ requests in
    let (after, nodes) = get_nodes server names asked in
    elim (server.node asked) [ err _ ↦ (after, nodes) | ok n ↦ (after, n ∷ nodes) ]

unfoldable pub list_nodes : Server → Client → String → Requests → Requests × Result (List Node)
unfolding get_nodes
list_nodes server c deployment_name requests =
    let requests = list_machines c.namespace deployment_name ∷ requests in
    elim (server.machines requests) [
      | err e ↦ (requests, err ("listing machines for deployment " <> deployment_name <> ": " <> e))
      | ok machines ↦
          let (requests, nodes) = get_nodes server (node_names machines) requests in
          (requests, ok nodes)
    ]

abbrev pub is_terminal : Pod → Bool
is_terminal pod = pod.phase == "Succeeded" || pod.phase == "Failed"

unfoldable pub list_pods : Server → List String → Requests → Requests × Result (List Pod)
list_pods server [] requests = (requests, ok [])
list_pods server (name ∷ names) requests =
    let asked = list_pods_on name ∷ requests in
    let (after, rest) = list_pods server names asked in
    elim (server.pods asked) [
      | err e ↦ (asked, err ("listing pods on node " <> name <> ": " <> e))
      | ok pods ↦ elim rest [
        | err e ↦ (after, err e)
        | ok others ↦ (after, ok (keep (λ pod. not (is_terminal pod)) pods ++ others))
      ]
    ]

abbrev pub is_unschedulable : PodCondition → Bool
is_unschedulable c =
    c.type_name == "PodScheduled" && c.status == "False" && c.reason == "Unschedulable"

unfoldable pub list_pending_pods : Server → Requests → Requests × Result (List Pod)
list_pending_pods server requests =
    let requests = list_pods_pending ∷ requests in
    elim (server.pods requests) [
      | err e ↦ (requests, err ("listing pending pods: " <> e))
      | ok pods ↦ (requests, ok (keep (λ pod. any is_unschedulable pod.conditions) pods))
    ]

-- Without metrics, none, and no error.
unfoldable pub get_node_metrics :
    Server → List String → Requests → Requests × Result (List NodeMetrics)
get_node_metrics server names requests =
    let requests = list_node_metrics ∷ requests in
    elim (server.metrics requests) [
      | err _ ↦ (requests, ok [])
      | ok metrics ↦ (requests, ok (keep (λ m. contains m.name names) metrics))
    ]
