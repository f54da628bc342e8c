-- ===== src/Scheduler/Spec.antt =====
-- On `SimulateDownscale` of internal/scheduler/simulator.go: what a packing of pods onto nodes is.
use mathlib.Core.List.{Perm}
use native.Mathlib.Bridge.{le_prop}
use vpsie_k8s_capi_autoscale.Base.{
  ℕ, ℤ, pos, ◌+ℤ◌, ◌≤ℤ◌, ◌≡◌, true, some, String, List, [], ◌∷◌, Dict, length, All, flatten,
}
use vpsie_k8s_capi_autoscale.Cluster.{Taint, Pod}
use vpsie_k8s_capi_autoscale.Scheduler.Matching.{
  ParseQuantity, pod_total_cpu, pod_total_memory, tolerates_taints, matches_node_selector,
  matches_required_node_affinity,
}
use vpsie_k8s_capi_autoscale.Scheduler.Packing.{VirtualNode}

-- The exact sum of a request over the pods of a node.
abbrev pub total : (Pod → ℤ) → List Pod → ℤ
total f [] = pos 0
total f (p ∷ ps) = f p +ℤ total f ps

-- Requests are not negative, which the API server checks.
abbrev pub HasRequests : Pod → Type 0
HasRequests pod = (pos 0 ≤ℤ pod_total_cpu pod) × (pos 0 ≤ℤ pod_total_memory pod)

pub HasRequests-prop : (pod : Pod) → IsProp (HasRequests pod)
HasRequests-prop pod = hlevel le_prop

module _ (parse_quantity : ParseQuantity) where
  -- The pod may run on a node with these labels and taints.
  pub record IsAdmissible (labels : Dict String) (taints : List Taint) (pod : Pod) : Type 0 where
    pub tolerates : tolerates_taints pod.tolerations taints ≡ true
    pub selected : matches_node_selector pod.node_selector labels ≡ true
    pub affine : matches_required_node_affinity parse_quantity pod.affinity labels ≡ some true

  -- The pods of one node fit what the node has.
  pub record FitsNode (node : VirtualNode) (pods : List Pod) : Type 0 where
    pub cpu_fits : total pod_total_cpu pods ≤ℤ node.remain_cpu
    pub memory_fits : total pod_total_memory pods ≤ℤ node.remain_memory
    pub admissible : All (IsAdmissible node.labels node.taints) pods

  -- A distribution of the pods over `count` nodes like `node`, with every pod on just one of them.
  pub record IsPacking (node : VirtualNode) (count : ℕ) (pods : List Pod) (bins : List (List Pod))
      : Type 0 where
    pub one_each : length bins ≡ count
    pub all_pods : Perm (flatten bins) pods
    pub each_fits : All (FitsNode node) bins
