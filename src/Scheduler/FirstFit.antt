-- ===== src/Scheduler/FirstFit.antt =====
-- On `SimulateDownscale` of internal/scheduler/simulator.go: where the first-fit loop stands between
-- two pods.
use vpsie_k8s_capi_autoscale.Scheduler.Spec.{total, HasRequests, IsAdmissible, FitsNode}
use mathlib.Core.List.{Perm, perm_middle}
use mathlib.Core.List.Perm
use mathlib.Core.Option.{none-ne-some}
use vpsie_k8s_capi_autoscale.Base.{
  ℕ, zero, suc, ◌≤◌, pos, ◌+ℤ◌, ◌≤ℤ◌, InInt64, int_laws, sub64_exact, sub64-InInt64, ltb_ℤ→le, ◌≡◌,
  refl, ◌⊎◌, inl, inr, some, List, [], ◌∷◌, ◌++◌, length, length-append, All, flatten, replicate,
  arith,
}
use vpsie_k8s_capi_autoscale.Cluster.{Pod}
use vpsie_k8s_capi_autoscale.Scheduler.Matching.{ParseQuantity, pod_total_cpu, pod_total_memory}
use vpsie_k8s_capi_autoscale.Scheduler.Packing.{
  Reason, no_reason, BlockingPod, VirtualNode, Verdict, fits, refused, panics, Placement, placed,
  blocked, crashed, behind, check_node, take_pod, blocker, place, pack,
}

pub Verdict-cases : (v : Verdict) → (v ≡ fits) ⊎ (v ≡ panics) ⊎ ((r : Reason) × (v ≡ refused r))
Verdict-cases fits = inl refl
Verdict-cases panics = inr (inl refl)
Verdict-cases (refused r) = inr (inr (r, refl))

pub Placement-cases :
    (p : Placement)
    → ((vns : List VirtualNode) × (p ≡ placed vns))
      ⊎ ((r : Reason) × (p ≡ blocked r))
      ⊎ (p ≡ crashed)
Placement-cases (placed vns) = inl (vns, refl)
Placement-cases (blocked r) = inr (inl (r, refl))
Placement-cases crashed = inr (inr refl)

-- A pod that blocks is never forgotten.
pub pack-length-le :
    (parse_quantity : ParseQuantity) (pods : List Pod) (vns : List VirtualNode)
    (blocking : List BlockingPod) {all : List BlockingPod}
    → pack parse_quantity pods vns blocking ≡ some all
    → length blocking ≤ length all
unfolding pack
pack-length-le q [] vns blocking e = ground arith
pack-length-le q (pod ∷ pods) vns blocking e = elim (Placement-cases (place q pod vns no_reason)) [
  | inl (vns', p) ↦ pack-length-le q pods vns' blocking (rw (p, pack) at e)
  | inr (inl (why, p)) ↦ omega (
    arith,
    pack-length-le q pods vns _ (rw (p, pack) at e),
    length-append blocking (blocker pod why ∷ []),
  )
  | inr (inr p) ↦ absurd (none-ne-some _ (rw (p, pack) at e))
]

pack-ne-nil :
    (q : ParseQuantity) (pods : List Pod) (vns : List VirtualNode) (b : BlockingPod)
    (bs : List BlockingPod)
    → ¬ (pack q pods vns (b ∷ bs) ≡ some [])
pack-ne-nil q pods vns b bs e = omega (arith, pack-length-le q pods vns (b ∷ bs) e)

module _ (parse_quantity : ParseQuantity) where
  -- A pod that passes the four checks fits what is left of the node, and is admissible.
  check_node-fits :
      (pod : Pod) (vn : VirtualNode)
      → check_node parse_quantity pod vn ≡ fits
      → (pod_total_cpu pod ≤ℤ vn.remain_cpu)
        × (pod_total_memory pod ≤ℤ vn.remain_memory)
        × IsAdmissible parse_quantity vn.labels vn.taints pod
  unfolding check_node
  check_node-fits pod vn h = ground (
    arith,
    ltb_ℤ→le vn.remain_cpu (pod_total_cpu pod),
    ltb_ℤ→le vn.remain_memory (pod_total_memory pod),
  )

  module _ (base : VirtualNode) where
    -- What is left of a node, and the pods placed on it so far, make up the node.
    pub record Holds (vn : VirtualNode) (bin : List Pod) : Type 0 where
      pub same_labels : vn.labels ≡ base.labels
      pub same_taints : vn.taints ≡ base.taints
      pub cpu_range : InInt64 vn.remain_cpu
      pub cpu_left : pos 0 ≤ℤ vn.remain_cpu
      pub cpu_used : vn.remain_cpu +ℤ total pod_total_cpu bin ≤ℤ base.remain_cpu
      pub memory_range : InInt64 vn.remain_memory
      pub memory_left : pos 0 ≤ℤ vn.remain_memory
      pub memory_used : vn.remain_memory +ℤ total pod_total_memory bin ≤ℤ base.remain_memory
      pub admitted : All (IsAdmissible parse_quantity base.labels base.taints) bin

    abbrev pub HoldAll : List VirtualNode → List (List Pod) → Type 0
    HoldAll [] [] = Unit
    HoldAll (vn ∷ vns) (bin ∷ bins) = Holds vn bin × HoldAll vns bins
    HoldAll _ _ = ⊥

    Holds-take_pod :
        (pod : Pod) (vn : VirtualNode) (bin : List Pod)
        → Holds vn bin
        → HasRequests pod
        → check_node parse_quantity pod vn ≡ fits
        → Holds (take_pod parse_quantity pod vn) (pod ∷ bin)
    Holds-take_pod pod vn bin h r e =
        let (cpu_le, memory_le, ok) = check_node-fits pod vn e in
        let cpu = sub64_exact vn.remain_cpu (pod_total_cpu pod) h.cpu_range r.0 cpu_le in
        let memory =
          sub64_exact vn.remain_memory (pod_total_memory pod) h.memory_range r.1 memory_le in
        record {
          same_labels = h.same_labels;
          same_taints = h.same_taints;
          cpu_range = sub64-InInt64 _ _;
          cpu_left = rw cpu (omega (int_laws, h.cpu_left));
          cpu_used = rw cpu (omega (int_laws, h.cpu_used));
          memory_range = sub64-InInt64 _ _;
          memory_left = rw memory (omega (int_laws, h.memory_left));
          memory_used = rw memory (omega (int_laws, h.memory_used));
          admitted = (rw (← h.same_labels, ← h.same_taints) ok, h.admitted);
        }

    -- If the pod was placed, the new nodes hold the old pods and this one.
    abbrev IsPlaced : Pod → List (List Pod) → Placement → Type 0
    IsPlaced pod bins (placed vns) =
        (bins' : List (List Pod)) × HoldAll vns bins'
        × (length bins' ≡ length bins)
        × Perm (flatten bins') (pod ∷ flatten bins)
    IsPlaced pod bins _ = Unit

    IsPlaced-behind :
        (pod : Pod) (vn : VirtualNode) (bin : List Pod) (bins : List (List Pod)) (r : Placement)
        → Holds vn bin
        → IsPlaced pod bins r
        → IsPlaced pod (bin ∷ bins) (behind vn r)
    IsPlaced-behind pod vn bin bins (placed vns) h (bins', held, same, perm) = (
      bin ∷ bins',
      (h, held),
      omega arith,
      Perm.trans (Perm.append_left bin perm) (perm_middle bin (flatten bins)),
    )
    IsPlaced-behind pod vn bin bins (blocked r) h p = tt
    IsPlaced-behind pod vn bin bins crashed h p = tt

    place-IsPlaced :
        (pod : Pod) (vns : List VirtualNode) (bins : List (List Pod)) (last : Reason)
        → HoldAll vns bins
        → HasRequests pod
        → IsPlaced pod bins (place parse_quantity pod vns last)
    unfolding place
    place-IsPlaced pod [] bins last h r = tt
    place-IsPlaced pod (vn ∷ vns) [] last h r = absurd h
    place-IsPlaced pod (vn ∷ vns) (bin ∷ bins) last (h, hs) r =
        elim (Verdict-cases (check_node parse_quantity pod vn)) [
          | inl e ↦
              rw (e, place)
                ((pod ∷ bin) ∷ bins, (Holds-take_pod pod vn bin h r e, hs), refl, Perm.refl _)
          | inr (inl e) ↦ rw (e, place) tt
          | inr (inr (why, e)) ↦
              rw (e, place)
                (IsPlaced-behind pod vn bin bins _ h (place-IsPlaced pod vns bins why hs r))
        ]

    -- The pods, and those that the nodes held before, are those that nodes hold at the end.
    abbrev IsPacked : List Pod → List (List Pod) → Type 0
    IsPacked pods bins =
        (vns : List VirtualNode) × (bins' : List (List Pod)) × HoldAll vns bins'
        × (length bins' ≡ length bins)
        × Perm (flatten bins') (pods ++ flatten bins)

    IsPacked-cons :
        (pod : Pod) (pods : List Pod) (bins bins' : List (List Pod))
        → length bins' ≡ length bins
        → Perm (flatten bins') (pod ∷ flatten bins)
        → IsPacked pods bins'
        → IsPacked (pod ∷ pods) bins
    IsPacked-cons pod pods bins bins' same perm (vns, bins'', held, same', perm') = (
      vns,
      bins'',
      held,
      omega arith,
      Perm.trans perm' (Perm.trans (Perm.append_left pods perm) (perm_middle pods (flatten bins))),
    )

    -- Without a blocking pod, every pod was packed.
    pub pack-IsPacked :
        (pods : List Pod) (vns : List VirtualNode) (bins : List (List Pod))
        → HoldAll vns bins
        → All HasRequests pods
        → pack parse_quantity pods vns [] ≡ some []
        → IsPacked pods bins
    unfolding pack
    pack-IsPacked [] vns bins h r e = (vns, bins, h, refl, Perm.refl _)
    pack-IsPacked (pod ∷ pods) vns bins h (r, rs) e =
        pack_step (place parse_quantity pod vns no_reason) refl
          (place-IsPlaced pod vns bins no_reason h r)
          (λ vns' bins' h' e'. pack-IsPacked pods vns' bins' h' rs e')
      where
        pack_step :
            (p : Placement)
            → place parse_quantity pod vns no_reason ≡ p
            → IsPlaced pod bins p
            → ((vns' : List VirtualNode) (bins' : List (List Pod))
                → HoldAll vns' bins'
                → pack parse_quantity pods vns' [] ≡ some []
                → IsPacked pods bins')
            → IsPacked (pod ∷ pods) bins
        pack_step (placed vns') q (bins', held, same, perm) ih =
            IsPacked-cons pod pods bins bins' same perm (ih vns' bins' held (rw (q, pack) at e))
        pack_step (blocked why) q i ih =
            absurd (pack-ne-nil parse_quantity pods vns _ [] (rw (q, pack) at e))
        pack_step crashed q i ih = absurd (none-ne-some _ (rw (q, pack) at e))

    Holds-FitsNode :
        (vn : VirtualNode) (bin : List Pod) → Holds vn bin → FitsNode parse_quantity base bin
    Holds-FitsNode vn bin h = record {
      cpu_fits = omega (int_laws, h.cpu_used, h.cpu_left);
      memory_fits = omega (int_laws, h.memory_used, h.memory_left);
      admissible = h.admitted;
    }

    pub HoldAll-FitsNode :
        (vns : List VirtualNode) (bins : List (List Pod))
        → HoldAll vns bins
        → All (FitsNode parse_quantity base) bins
    HoldAll-FitsNode [] [] h = tt
    HoldAll-FitsNode [] (bin ∷ bins) h = absurd h
    HoldAll-FitsNode (vn ∷ vns) [] h = absurd h
    HoldAll-FitsNode (vn ∷ vns) (bin ∷ bins) (h, hs) =
        (Holds-FitsNode vn bin h, HoldAll-FitsNode vns bins hs)

    pub HoldAll-replicate : (n : ℕ) → Holds base [] → HoldAll (replicate n base) (replicate n [])
    HoldAll-replicate zero h = tt
    HoldAll-replicate (suc n) h = (h, HoldAll-replicate n h)
