-- ===== src/Workload/Drain.antt =====
-- internal/workload/client.go: nodes are cordoned, drained and counted. The tests of pods are those of
-- internal/scheduler/simulator.go, word for word.
use vpsie_k8s_capi_autoscale.Base.{
  ℤ, pos, add64, String, ◌<>◌, Bool, true, false, not, ◌&&◌, ◌||◌, List, [], ◌∷◌, Result, ok, err,
  string_eq, if◌then◌else◌,
}
use vpsie_k8s_capi_autoscale.Cluster.{Pod, Node}
use vpsie_k8s_capi_autoscale.Scheduler.Matching.{is_daemon_set_pod, is_mirror_pod}
use vpsie_k8s_capi_autoscale.Workload.{Requests, Server, get_node, update_node, list_pods_on, evict}
use vpsie_k8s_capi_autoscale.Workload.Reads.{is_terminal}

-- `CordonNode` and `UncordonNode` differ in the value and in the word of their errors.
unfoldable pub set_unschedulable :
    Server → Bool → String → String → Requests → Requests × Result (Unit {0})
set_unschedulable server value word name requests =
    let asked = get_node name ∷ requests in
    elim (server.node asked) [
      | err e ↦ (asked, err ("getting node " <> name <> ": " <> e))
      | ok node ↦
          let written : Requests = update_node (record node { unschedulable = value }) ∷ asked in
          let already = if value then Node.unschedulable node else not (Node.unschedulable node) in
          if already then (asked, ok tt) else elim (server.updated written) [
            | err e ↦ (written, err (word <> " node " <> name <> ": " <> e))
            | ok _ ↦ (written, ok tt)
          ]
    ]

unfoldable pub cordon_node : Server → String → Requests → Requests × Result (Unit {0})
unfolding set_unschedulable
cordon_node server name requests = set_unschedulable server true "cordoning" name requests

unfoldable pub uncordon_node : Server → String → Requests → Requests × Result (Unit {0})
unfolding set_unschedulable
uncordon_node server name requests = set_unschedulable server false "uncordoning" name requests

-- A pod that a drain is to evict.
abbrev pub is_evictable : Pod → Bool
is_evictable pod = not (is_terminal pod) && not (is_daemon_set_pod pod || is_mirror_pod pod)

-- An eviction that fails is passed over.
unfoldable pub evict_pods : Server → List Pod → ℤ → Requests → Requests × ℤ
evict_pods server [] evicted requests = (requests, evicted)
evict_pods server (pod ∷ pods) evicted requests =
    let asked = evict pod.namespace pod.name ∷ requests in
    let count : ℤ = elim (server.evicted asked) [
      | err _ ↦ evicted
      | ok _ ↦ add64 evicted (pos 1)
    ] in
    let passed = evict_pods server pods evicted requests in
    let rest = evict_pods server pods count asked in if is_evictable pod then rest else passed

unfoldable pub drain_node : Server → String → Requests → Requests × Result ℤ
unfolding evict_pods
drain_node server name requests =
    let requests = list_pods_on name ∷ requests in
    elim (server.pods requests) [
      | err e ↦ (requests, err ("listing pods on node " <> name <> ": " <> e))
      | ok pods ↦
          let (requests, evicted) = evict_pods server pods (pos 0) requests in
          (requests, ok evicted)
    ]

unfoldable pub count_evictable : List Pod → ℤ → ℤ
count_evictable [] count = count
count_evictable (pod ∷ pods) count =
    count_evictable pods (if is_evictable pod then add64 count (pos 1) else count)

unfoldable pub get_non_system_pod_count : Server → String → Requests → Requests × Result ℤ
unfolding count_evictable
get_non_system_pod_count server name requests =
    let requests = list_pods_on name ∷ requests in
    elim (server.pods requests) [
      | err e ↦ (requests, err ("listing pods on node " <> name <> ": " <> e))
      | ok pods ↦ (requests, ok (count_evictable pods (pos 0)))
    ]
