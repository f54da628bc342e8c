-- ===== src/Workload/Evictions.antt =====
-- Which pods `DrainNode` of internal/workload/client.go evicts.
use vpsie_k8s_capi_autoscale.Base.{
  ℤ, pos, add64, ◌≡◌, refl, inl, inr, String, List, [], ◌∷◌, map, keep, ok, Bool, true, false, not,
  all, contains, Dict, lookup, none, some, ◌==◌, ◌&&◌, Bool-cases, cond, arith, string_eq,
}
use vpsie_k8s_capi_autoscale.Cluster.{Pod}
use vpsie_k8s_capi_autoscale.Workload.{Requests, Server, list_pods_on, evict}
use vpsie_k8s_capi_autoscale.Scheduler.Matching.{is_daemon_set_pod, is_mirror_pod}
use vpsie_k8s_capi_autoscale.Workload.Drain.{
  is_evictable, evict_pods, drain_node, count_evictable, get_non_system_pod_count,
}

-- The pods that requests evict, the newest first.
abbrev pub evictions : Requests → List (String × String)
evictions [] = []
evictions (evict namespace name ∷ requests) = (namespace, name) ∷ evictions requests
evictions (_ ∷ requests) = evictions requests

-- The first list, turned about, before the second.
abbrev pub reverse_onto {ℓ} : {A : Type ℓ} → List A → List A → List A
reverse_onto [] ys = ys
reverse_onto (x ∷ xs) ys = reverse_onto xs (x ∷ ys)

-- A pod that has neither succeeded nor failed, that no DaemonSet owns, and that bears no annotation of
-- a mirror pod.
abbrev pub is_workload : Pod → Bool
is_workload pod =
    (not (pod.phase == "Succeeded") && not (pod.phase == "Failed"))
    && (all (λ kind. not ("DaemonSet" == kind)) pod.owner_kinds
        && all (λ e. not ("kubernetes.io/config.mirror" == e.0)) pod.annotations)

contains-all : (s : String) (l : List String) → not (contains s l) ≡ all (λ x. not (s == x)) l
contains-all s [] = refl
contains-all s (x ∷ l) = let rest = contains-all s l in ground arith

lookup-all :
    (k : String) (m : Dict String)
    → not (elim (lookup k m) [ none ↦ false | some _ ↦ true ]) ≡ all (λ e. not (k == e.0)) m
lookup-all k [] = refl
lookup-all k ((j, v) ∷ m) = let rest = lookup-all k m in ground arith

is_evictable-workload : (pod : Pod) → is_evictable pod ≡ is_workload pod
unfolding is_daemon_set_pod is_mirror_pod
is_evictable-workload pod =
    let owners = contains-all "DaemonSet" pod.owner_kinds in
    let mirrors = lookup-all "kubernetes.io/config.mirror" pod.annotations in ground arith

abbrev pub key_of : Pod → String × String
key_of pod = (pod.namespace, pod.name)

evict_pods-evictions :
    (server : Server) (pods : List Pod) (evicted : ℤ) (requests : Requests)
    → evictions (evict_pods server pods evicted requests).0
      ≡ reverse_onto (map key_of (keep is_workload pods)) (evictions requests)
unfolding evict_pods
evict_pods-evictions server [] evicted requests = refl
evict_pods-evictions server (pod ∷ pods) evicted requests = elim (Bool-cases (is_workload pod)) [
  | inl e ↦
      rw (evict_pods, is_evictable-workload pod, e, cond)
        (evict_pods-evictions server pods _ (evict pod.namespace pod.name ∷ requests))
  | inr e ↦
      rw (evict_pods, is_evictable-workload pod, e, cond)
        (evict_pods-evictions server pods evicted requests)
]

evict_pods-count :
    (server : Server) (pods : List Pod) (evicted : ℤ) (requests : Requests)
    → ((asked : Requests) → server.evicted asked ≡ ok tt)
    → (evict_pods server pods evicted requests).1 ≡ count_evictable pods evicted
unfolding evict_pods count_evictable
evict_pods-count server [] evicted requests all_go = refl
evict_pods-count server (pod ∷ pods) evicted requests all_go =
    let asked = evict pod.namespace pod.name ∷ requests in
    let rest = evict_pods-count server pods (add64 evicted (pos 1)) asked all_go in
    let passed = evict_pods-count server pods evicted requests all_go in
    let goes = all_go asked in ground arith

-- If the pods of the node are listed, a drain asks for the eviction of exactly those that have neither
-- succeeded nor failed, that no DaemonSet owns and that are no mirror pods, each as often as it is listed
-- and in that order, whichever evictions fail; and it ends without an error.
pub drain_node-evictions :
    (server : Server) (name : String) (requests : Requests) (pods : List Pod)
    → server.pods (list_pods_on name ∷ requests) ≡ ok pods
    → (evictions (drain_node server name requests).0
        ≡ reverse_onto (map key_of (keep is_workload pods)) (evictions requests))
      × ((n : ℤ) × ((drain_node server name requests).1 ≡ ok n))
unfolding drain_node
drain_node-evictions server name requests pods listed =
    let asked = list_pods_on name ∷ requests in
    rw (drain_node, listed)
      (
        evict_pods-evictions server pods (pos 0) asked,
        ((evict_pods server pods (pos 0) asked).1, refl),
      )

-- If every eviction succeeds, the number that a drain returns is the one by which the end of the drain
-- is told: what `GetNonSystemPodCount` counts on the same node. Condition: the same pods are listed.
pub drain_node-count :
    (server : Server) (name : String) (requests later : Requests) (pods : List Pod)
    → server.pods (list_pods_on name ∷ requests) ≡ ok pods
    → server.pods (list_pods_on name ∷ later) ≡ ok pods
    → ((asked : Requests) → server.evicted asked ≡ ok tt)
    → (drain_node server name requests).1 ≡ (get_non_system_pod_count server name later).1
unfolding drain_node get_non_system_pod_count
drain_node-count server name requests later pods listed again all_go =
    let same = evict_pods-count server pods (pos 0) (list_pods_on name ∷ requests) all_go in
    rw (drain_node, listed, get_non_system_pod_count, again, same) refl
