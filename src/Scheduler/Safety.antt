-- ===== src/Scheduler/Safety.antt =====
-- On `SimulateDownscale` of internal/scheduler/simulator.go: packings, and where the first-fit loop
-- stands between two pods.
use vpsie_k8s_capi_autoscale.Scheduler.Spec.{HasRequests, HasRequests-prop, IsPacking}
use vpsie_k8s_capi_autoscale.Scheduler.FirstFit.{
  Holds, HoldAll-replicate, HoldAll-FitsNode, pack-IsPacked,
}
use mathlib.Core.List.{Perm, append-nil}
use mathlib.Core.List.Perm
use vpsie_k8s_capi_autoscale.Base.{
  ℕ, zero, suc, ℤ, pos, pos_part, ◌≤ℤ◌, InInt64, int_laws, sub64-InInt64, ltb_ℤ→le, ◌≡◌, refl, Bool,
  true, some, List, [], ◌∷◌, All, All-Perm, flatten, replicate, arith, length-replicate,
}
use vpsie_k8s_capi_autoscale.Cluster.{Pod}
use vpsie_k8s_capi_autoscale.Plan.{Plan, NodeUtilization}
use vpsie_k8s_capi_autoscale.Scheduler.Matching.{ParseQuantity}
use vpsie_k8s_capi_autoscale.Scheduler.Packing.{
  VirtualNode, SimulationResult, SortSlice, larger_first, collect_pods, virtual_node, alloc_cpu,
  alloc_memory, clamp_zero, pack, simulate_downscale,
}

module _ (parse_quantity : ParseQuantity) where
  flatten-replicate : (n : ℕ) → flatten {A = Pod} (replicate n []) ≡ []
  flatten-replicate zero = refl
  flatten-replicate (suc n) = flatten-replicate n

  abbrev IsShare : ℤ → Type 0
  IsShare a = InInt64 a × (pos 0 ≤ℤ a)

  Holds-self :
      (base : VirtualNode)
      → IsShare base.remain_cpu
      → IsShare base.remain_memory
      → Holds parse_quantity base base []
  Holds-self base cpu memory = record {
    same_labels = refl;
    same_taints = refl;
    cpu_range = cpu.0;
    cpu_left = cpu.1;
    cpu_used = omega int_laws;
    memory_range = memory.0;
    memory_left = memory.1;
    memory_used = omega int_laws;
    admitted = tt;
  }

  clamp_zero-IsShare : (a : ℤ) → InInt64 a → IsShare (clamp_zero a)
  clamp_zero-IsShare a h = ground (arith, ltb_ℤ→le a (pos 0))

  Holds-virtual_node :
      (nodes : List NodeUtilization) (cpu memory : ℤ)
      → IsShare cpu
      → IsShare memory
      → let base = virtual_node nodes cpu memory in Holds parse_quantity base base []
  Holds-virtual_node [] cpu memory c m = Holds-self _ c m
  Holds-virtual_node (n ∷ ns) cpu memory c m = Holds-self _ c m

  simulate_downscale-packed :
      {F : Type 0} (sort_slice : SortSlice) (nodes : List NodeUtilization) (plan : Plan F)
      (node_count : ℤ) (r : SimulationResult)
      → simulate_downscale parse_quantity sort_slice nodes plan node_count ≡ some r
      → r.safe ≡ true
      → pack parse_quantity
          (sort_slice larger_first (collect_pods nodes))
          (replicate
            (pos_part node_count)
            (virtual_node nodes (alloc_cpu plan) (alloc_memory plan)))
          []
        ≡ some []
  unfolding simulate_downscale
  simulate_downscale-packed sort_slice nodes plan node_count r e safe = ground arith

  -- If the simulation answers that the downscale is safe, there is a packing of all workload pods:
  -- each pod stands on exactly one of `node_count` nodes, whose labels and taints admit it, and on
  -- each node the pods request no more than the candidate plan leaves after the kubelet's share.
  -- Conditions: `sort.Slice` permutes its argument, and no pod requests a negative amount.
  pub simulate_downscale-IsPacking :
      {F : Type 0} (sort_slice : SortSlice) (nodes : List NodeUtilization) (plan : Plan F)
      (node_count : ℤ) (r : SimulationResult)
      → ((less : Pod → Pod → Bool) (pods : List Pod) → Perm (sort_slice less pods) pods)
      → All HasRequests (collect_pods nodes)
      → simulate_downscale parse_quantity sort_slice nodes plan node_count ≡ some r
      → r.safe ≡ true
      → (bins : List (List Pod)) × IsPacking parse_quantity
          (virtual_node nodes (alloc_cpu plan) (alloc_memory plan))
          (pos_part node_count)
          (collect_pods nodes)
          bins
  simulate_downscale-IsPacking sort_slice nodes plan node_count r sorts requests e safe =
      let base = virtual_node nodes (alloc_cpu plan) (alloc_memory plan) in
      let pods = sort_slice larger_first (collect_pods nodes) in
      let n = pos_part node_count in
      let sorted = sorts larger_first (collect_pods nodes) in
      let (vns, bins, held, same, perm) =
        pack-IsPacked parse_quantity base pods (replicate n base) (replicate n [])
          (HoldAll-replicate parse_quantity base n (
            Holds-virtual_node nodes (alloc_cpu plan) (alloc_memory plan)
              (clamp_zero-IsShare _ (sub64-InInt64 _ _))
              (clamp_zero-IsShare _ (sub64-InInt64 _ _))))
          (All-Perm HasRequests HasRequests-prop sorted requests)
          (simulate_downscale-packed sort_slice nodes plan node_count r e safe) in
      (
        bins,
        record {
          one_each = omega (arith, same, length-replicate {A = List Pod} n []);
          all_pods = Perm.trans (rw (flatten-replicate n, append-nil) at perm) sorted;
          each_fits = HoldAll-FitsNode parse_quantity base vns bins held;
        },
      )
