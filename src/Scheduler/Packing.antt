-- ===== src/Scheduler/Packing.antt =====
-- internal/scheduler/simulator.go: `SimulateDownscale`, first-fit packing of the workload pods onto
-- virtual nodes of the candidate plan.
use vpsie_k8s_capi_autoscale.Base.{
  ℕ, ◌*◌, ℤ, pos, pos_part, add64, sub64, mul64, ltb_ℤ, leb_ℤ, String, Bool, true, false, not, ◌||◌,
  Option, none, some, List, [], ◌∷◌, ◌++◌, Dict, length, replicate, keep, if◌then◌else◌,
}
use vpsie_k8s_capi_autoscale.Cluster.{Taint, Pod}
use vpsie_k8s_capi_autoscale.Plan.{Plan, NodeUtilization}
use vpsie_k8s_capi_autoscale.Scheduler.Matching.{
  ParseQuantity, is_daemon_set_pod, is_mirror_pod, pod_total_cpu, pod_total_memory,
  tolerates_taints, matches_node_selector, matches_required_node_affinity,
}

-- The texts of `Reason`, with what they print; `no_reason` is the empty string.
pub data Reason : Type 0 where
  no_reason : Reason
  insufficient_resources : ℤ → ℤ → Reason
  untolerated_taints : Reason
  selector_mismatch : Reason
  affinity_mismatch : Reason

pub record BlockingPod : Type 0 where
  pub name : String
  pub namespace : String
  pub reason : Reason

-- The texts of `Message`, with what they print.
pub data Message : Type 0 where
  count_not_positive : Message
  cannot_schedule : ℕ → String → Message
  all_fit : ℕ → ℤ → String → Message

pub record SimulationResult : Type 0 where
  pub safe : Bool
  pub blocking_pods : List BlockingPod
  pub message : Message

pub record VirtualNode : Type 0 where
  pub labels : Dict String
  pub taints : List Taint
  pub remain_cpu : ℤ
  pub remain_memory : ℤ

abbrev pub is_workload_pod : Pod → Bool
is_workload_pod pod = not (is_daemon_set_pod pod || is_mirror_pod pod)

unfoldable pub collect_pods : List NodeUtilization → List Pod
collect_pods [] = []
collect_pods (n ∷ ns) = keep is_workload_pod n.pods ++ collect_pods ns

abbrev pub clamp_zero : ℤ → ℤ
clamp_zero a = if ltb_ℤ a (pos 0) then pos 0 else a

abbrev pub alloc_cpu : {F : Type 0} → Plan F → ℤ
alloc_cpu plan = clamp_zero (sub64 (mul64 plan.cpu (pos 1000)) (pos 100))

-- `int64(candidatePlan.RAM)*1024*1024 - 256*1024*1024`
abbrev pub alloc_memory : {F : Type 0} → Plan F → ℤ
alloc_memory plan =
    clamp_zero (sub64 (mul64 (mul64 plan.ram (pos 1024)) (pos 1024)) (pos (256 * 1024 * 1024)))

-- The labels and taints of the first node, nil without one.
abbrev pub virtual_node : List NodeUtilization → ℤ → ℤ → VirtualNode
virtual_node [] cpu memory = record {
  labels = [];
  taints = [];
  remain_cpu = cpu;
  remain_memory = memory;
}
virtual_node (n ∷ _) cpu memory = record {
  labels = n.labels;
  taints = n.taints;
  remain_cpu = cpu;
  remain_memory = memory;
}

-- `sort.Slice` of the Go library, which does not say how it orders equal elements.
abbrev pub SortSlice : Type 0
SortSlice = (Pod → Pod → Bool) → List Pod → List Pod

-- The `less` that is passed to it.
unfoldable pub larger_first : Pod → Pod → Bool
larger_first p q =
    ltb_ℤ (add64 (pod_total_cpu q) (pod_total_memory q))
      (add64 (pod_total_cpu p) (pod_total_memory p))

-- A pod fits a node, is refused, or the check panics.
pub data Verdict : Type 0 where
  fits panics : Verdict
  refused : Reason → Verdict

-- The pod is placed and the nodes have changed, or it is blocked.
pub data Placement : Type 0 where
  placed : List VirtualNode → Placement
  blocked : Reason → Placement
  crashed : Placement

abbrev pub behind : VirtualNode → Placement → Placement
behind vn (placed vns) = placed (vn ∷ vns)
behind vn (blocked r) = blocked r
behind vn crashed = crashed

abbrev pub blocker : Pod → Reason → BlockingPod
blocker pod r = record { name = pod.name; namespace = pod.namespace; reason = r }

module _ (parse_quantity : ParseQuantity) where
  -- The four checks of the loop body, in order.
  unfoldable pub check_node : Pod → VirtualNode → Verdict
  check_node pod vn =
      let cpu = pod_total_cpu pod in
      let memory = pod_total_memory pod in
      if ltb_ℤ vn.remain_cpu cpu || ltb_ℤ vn.remain_memory memory
      then refused (insufficient_resources cpu memory)
      else if not (tolerates_taints pod.tolerations vn.taints)
      then refused untolerated_taints
      else if not (matches_node_selector pod.node_selector vn.labels)
      then refused selector_mismatch
      else elim (matches_required_node_affinity parse_quantity pod.affinity vn.labels) [
        | none ↦ panics
        | some false ↦ refused affinity_mismatch
        | some true ↦ fits
      ]

  abbrev pub take_pod : Pod → VirtualNode → VirtualNode
  take_pod pod vn = record vn {
    remain_cpu = sub64 vn.remain_cpu (pod_total_cpu pod);
    remain_memory = sub64 vn.remain_memory (pod_total_memory pod);
  }

  -- The loop over the virtual nodes; `last` is the reason of the last node tried.
  unfoldable pub place : Pod → List VirtualNode → Reason → Placement
  place pod [] last = blocked last
  place pod (vn ∷ vns) last = elim (check_node pod vn) [
    | fits ↦ placed (take_pod pod vn ∷ vns)
    | panics ↦ crashed
    | refused r ↦ behind vn (place pod vns r)
  ]

  -- The loop over the pods: the pods that block, or `none` for a panic.
  unfoldable pub pack : List Pod → List VirtualNode → List BlockingPod → Option (List BlockingPod)
  pack [] vns blocking = some blocking
  pack (pod ∷ pods) vns blocking = elim (place pod vns no_reason) [
    | placed vns' ↦ pack pods vns' blocking
    | blocked r ↦ pack pods vns (blocking ++ (blocker pod r ∷ []))
    | crashed ↦ none
  ]

  verdict_of : List BlockingPod → ℕ → ℤ → String → SimulationResult
  verdict_of [] pods count nickname = record {
    safe = true;
    blocking_pods = [];
    message = all_fit pods count nickname;
  }
  verdict_of (b ∷ bs) pods count nickname = record {
    safe = false;
    blocking_pods = b ∷ bs;
    message = cannot_schedule (length (b ∷ bs)) nickname;
  }

  unfoldable pub simulate_downscale :
      {F : Type 0} → SortSlice → List NodeUtilization → Plan F → ℤ → Option SimulationResult
  unfolding verdict_of
  simulate_downscale sort_slice nodes plan node_count =
      if leb_ℤ node_count (pos 0)
      then some (record { safe = false; blocking_pods = []; message = count_not_positive })
      else let pods = sort_slice larger_first (collect_pods nodes) in
        let vnodes =
          replicate (pos_part node_count)
            (virtual_node nodes (alloc_cpu plan) (alloc_memory plan)) in
        elim (pack pods vnodes []) [
          | none ↦ none
          | some blocking ↦ some (verdict_of blocking (length pods) node_count plan.nickname)
        ]
