-- ===== src/Horizontal/Safety.antt =====
-- On the start of a drain in `reconcileHorizontal` (internal/controller/scalingpolicy_controller.go).
use mathlib.Core.List.{Perm}
use mathlib.Core.Option.{none-ne-some, some-injective}
use vpsie_k8s_capi_autoscale.Scheduler.Packing.{
  SimulationResult, simulate_downscale, virtual_node, alloc_cpu, alloc_memory, collect_pods,
}
use vpsie_k8s_capi_autoscale.Scheduler.Spec.{IsPacking, HasRequests}
use vpsie_k8s_capi_autoscale.Scheduler.Safety.{simulate_downscale-IsPacking}
use vpsie_k8s_capi_autoscale.Horizontal.ScaleDown.{synthetic_plan, nodes_fit, least_utilized_node}
use vpsie_k8s_capi_autoscale.Base.{mul64, add64, sub64, quot, ◌^◌, ◌<◌, ◌∙◌, Option-cases}
use vpsie_k8s_capi_autoscale.Base.{
  ℕ, ◌+◌, ℤ, pos, pos_part, ◌≤ℤ◌, ltb_ℤ, ◌≡◌, ◌≢◌, refl, inl, inr, String, Bool, true, Option, some,
  List, [], ◌∷◌, All, arith, string_eq,
}
use vpsie_k8s_capi_autoscale.Cluster.{Pod}
use vpsie_k8s_capi_autoscale.Float.{Float64}
use vpsie_k8s_capi_autoscale.Plan.{Plan, NodeUtilization}
use vpsie_k8s_capi_autoscale.Policy.{ScalingPolicySpec}
use vpsie_k8s_capi_autoscale.Utilization.Thresholds.{UtilizationResult}
use vpsie_k8s_capi_autoscale.World.{Env}
use vpsie_k8s_capi_autoscale.Horizontal.Pass.{Pass, Outcome, current_replicas_of, min_replicas_of}
use vpsie_k8s_capi_autoscale.Horizontal.Drain.{reduced}
use vpsie_k8s_capi_autoscale.Horizontal.Rollout.{await_rollout}
use vpsie_k8s_capi_autoscale.Horizontal.ScaleUp.{scale_up}
use vpsie_k8s_capi_autoscale.Horizontal.ScaleDown.{scale_down}
use vpsie_k8s_capi_autoscale.Horizontal.Reconcile.{reconcile_horizontal}
use vpsie_k8s_capi_autoscale.Horizontal.Cases.{
  asked, with_pending_cases, reconcile_horizontal_cases,
}

-- The outcome holds a drain.
abbrev pub Drains : Outcome → Type 0
Drains (p, _) = p.status.draining_node ≢ ""

await_rollout-draining_node :
    (env : Env) (p : Pass) → (await_rollout env p).0.status.draining_node ≡ p.status.draining_node
unfolding await_rollout
await_rollout-draining_node env p = ground arith

scale_up-draining_node :
    (env : Env) (is_dry : Bool) (max current : ℤ) (p : Pass)
    → (scale_up env is_dry max current p).0.status.draining_node ≡ p.status.draining_node
unfolding scale_up
scale_up-draining_node env is_dry max current p = ground arith

module _ (F : Type 0) ⦃f : Float64 F⦄ where
  -- The plan that stands for a node allocates no more CPU than the node.
  synthetic_plan-cpu-le :
      (n : NodeUtilization) (x : ℕ)
      → n.allocatable_cpu ≡ pos x
      → x + 100 < 2 ^ 63
      → alloc_cpu (synthetic_plan {F = F} n) ≤ℤ n.allocatable_cpu
  unfolding synthetic_plan add64 sub64 mul64 quot ltb_ℤ
  synthetic_plan-cpu-le n x e h = rw e (ground arith)

  scale_down-Drains :
      (env : Env) (spec : ScalingPolicySpec) (u : UtilizationResult F) (min current : ℤ) (p : Pass)
      → p.status.draining_node ≡ ""
      → Drains (scale_down env spec (some u) min current p)
      → (nodes_fit F env u.nodes (reduced min current) ≡ some true) × (u.nodes ≢ [])
  unfolding scale_down least_utilized_node
  scale_down-Drains env spec u min current p idle h = ground arith

  abbrev IsSimulated : Env → List NodeUtilization → ℤ → Type 0
  IsSimulated env nodes desired =
      (n : NodeUtilization) × (ns : List NodeUtilization) × (r : SimulationResult) × (nodes
        ≡ n ∷ ns)
      × (simulate_downscale env.parse_quantity env.sort_slice nodes (synthetic_plan {F = F} n)
            desired
          ≡ some r)
      × (r.safe ≡ true)

  nodes_fit-IsSimulated :
      (env : Env) (nodes : List NodeUtilization) (desired : ℤ)
      → nodes ≢ []
      → nodes_fit F env nodes desired ≡ some true
      → IsSimulated env nodes desired
  unfolding nodes_fit
  nodes_fit-IsSimulated env [] desired h e = absurd (h refl)
  nodes_fit-IsSimulated env (n ∷ ns) desired h e =
      let simulated =
        simulate_downscale env.parse_quantity env.sort_slice (n ∷ ns) (synthetic_plan {F = F} n)
          desired in
      elim (Option-cases simulated) [
        | inl crashed ↦ absurd (none-ne-some _ (rw (crashed, nodes_fit) at e))
        | inr (r, found) ↦ (n, ns, r, refl, found, some-injective _ _ (rw (found, nodes_fit) at e))
      ]

  -- If a pass starts a drain, the workload pods of the nodes can be packed onto as many nodes as are
  -- left: each pod on exactly one of them, whose labels and taints (those of the first node) admit
  -- it, and on each node no more than the plan that stands for the first node allocates. Conditions:
  -- `sort.Slice` permutes its argument, and no pod requests a negative amount.
  pub reconcile_horizontal-IsPacking :
      (env : Env) (spec : ScalingPolicySpec) (cluster_name : String) (u : UtilizationResult F)
      (plan : Option (Plan F)) (p : Pass)
      → ((less : Pod → Pod → Bool) (pods : List Pod) → Perm (env.sort_slice less pods) pods)
      → All HasRequests (collect_pods u.nodes)
      → p.status.draining_node ≡ ""
      → Drains (reconcile_horizontal env spec cluster_name (some u) plan p)
      → (n : NodeUtilization) × (ns : List NodeUtilization) × (bins : List (List Pod)) × (u.nodes
          ≡ n ∷ ns)
        × IsPacking env.parse_quantity
            (virtual_node u.nodes
              (alloc_cpu (synthetic_plan {F = F} n))
              (alloc_memory (synthetic_plan {F = F} n)))
            (pos_part
              (reduced (min_replicas_of spec.horizontal) (current_replicas_of p.deployment)))
            (collect_pods u.nodes)
            bins
  reconcile_horizontal-IsPacking env spec cluster_name u plan p sorts requests idle drains =
      let desired = reduced (min_replicas_of spec.horizontal) (current_replicas_of p.deployment) in
      let P : Outcome → Type 0 = λ o. Drains o → IsSimulated env u.nodes desired in
      let (n, ns, r, first, e, safe) =
        reconcile_horizontal_cases P env spec cluster_name (some u) plan p (λ d. absurd (d idle))
          (λ _ d. absurd (d idle)) (λ _ d. absurd (d idle))
          (λ pods.
            with_pending_cases P env spec (some u) _ (asked cluster_name p)
              (λ busy. absurd (busy idle))
              (λ _ _ d. absurd (d (await_rollout-draining_node env _ ∙ idle)))
              (λ _ _ d.
                let (fit, some_nodes) = scale_down-Drains env spec u _ _ _ idle d in
                nodes_fit-IsSimulated env u.nodes desired some_nodes fit)
              (λ _ _ _ d. absurd (d (scale_up-draining_node env spec.dry_run _ _ _ ∙ idle))))
          drains in
      let (bins, packing) =
        simulate_downscale-IsPacking env.parse_quantity env.sort_slice u.nodes
          (synthetic_plan {F = F} n) desired r sorts requests e safe in
      (n, ns, bins, first, packing)
