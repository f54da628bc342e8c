-- ===== src/Direction/Verdict.antt =====
-- What a direction is answered for, and what the answer leaves alone.
use mathlib.Core.List.{Perm}
use vpsie_k8s_capi_autoscale.Base.{
  ℤ, pos_part, ◌≡◌, refl, inl, inr, Bool, true, false, String, Option, none, some, List, All, arith,
  Result-cases, Option-cases,
}
use vpsie_k8s_capi_autoscale.Cluster.{Pod}
use vpsie_k8s_capi_autoscale.Float.{Float64}
use vpsie_k8s_capi_autoscale.Plan.{Plan}
use vpsie_k8s_capi_autoscale.Policy.{ScalingPolicySpec}
use vpsie_k8s_capi_autoscale.Scheduler.Packing.{
  SimulationResult, simulate_downscale, collect_pods, virtual_node, alloc_cpu, alloc_memory,
}
use vpsie_k8s_capi_autoscale.Scheduler.Spec.{HasRequests, IsPacking}
use vpsie_k8s_capi_autoscale.Scheduler.Safety.{simulate_downscale-IsPacking}
use vpsie_k8s_capi_autoscale.Selector.{direction_down}
use vpsie_k8s_capi_autoscale.Utilization.Thresholds.{UtilizationResult, evaluate_thresholds}
use vpsie_k8s_capi_autoscale.Utilization.Calculator.{calculate, calculate_nodes, calculate_metrics}
use vpsie_k8s_capi_autoscale.World.{Calls, Env, client_for_cluster}
use vpsie_k8s_capi_autoscale.Horizontal.Pass.{Pass, call, current_replicas_of, down_threshold_of}
use vpsie_k8s_capi_autoscale.Horizontal.DryRun.{IsReadOnly}
use vpsie_k8s_capi_autoscale.Direction.{
  decided, up_threshold_of, judge_downscale, judge_load, measure, ask_cluster, determine_direction,
}

calculate-IsReadOnly :
    (F : Type 0) ⦃f : Float64 F⦄ (env : Env) (calls : Calls) (name : String)
    → All IsReadOnly calls
    → All IsReadOnly (calculate {F = F} env calls name).0
unfolding calculate calculate_nodes calculate_metrics
calculate-IsReadOnly F env calls name h = ground arith

module _ {F : Type 0} ⦃f : Float64 F⦄ where
  -- What `evaluate_thresholds` says of a load under the thresholds of a policy.
  abbrev pub needs : ScalingPolicySpec → UtilizationResult F → Bool × Bool
  needs spec r =
      evaluate_thresholds r (up_threshold_of spec.target_utilization.scale_up_threshold)
        (down_threshold_of spec.target_utilization.scale_down_threshold)

  -- A downscale was simulated, and found safe.
  abbrev IsSimulated : Env → ScalingPolicySpec → Option (Plan F) → ℤ → UtilizationResult F → Type 0
  IsSimulated env spec plan replicas r =
      (current : Plan F) × (s : SimulationResult) × (plan ≡ some current)
      × (simulate_downscale env.parse_quantity env.sort_slice r.nodes current replicas ≡ some s)
      × (s.safe ≡ true)
      × (needs spec r ≡ (false, true))

  judge_load-down :
      (env : Env) (spec : ScalingPolicySpec) (plan : Option (Plan F)) (r u : UtilizationResult F)
      (p : Pass)
      → (judge_load env spec plan r p).1 ≡ decided direction_down (some u)
      → IsSimulated env spec plan (current_replicas_of p.deployment) u
  unfolding judge_load judge_downscale
  judge_load-down env spec none r u p h = absurd (ground arith)
  judge_load-down env spec (some current) r u p h =
      elim (Option-cases (
        simulate_downscale env.parse_quantity env.sort_slice r.nodes current
          (current_replicas_of p.deployment))) [
            | inl e ↦ absurd (ground arith)
            | inr (s, e) ↦ (current, s, refl, ground arith, ground arith, ground arith)
          ]

  measure-down :
      (env : Env) (spec : ScalingPolicySpec) (plan : Option (Plan F)) (u : UtilizationResult F)
      (p : Pass)
      → (measure env spec plan p).1 ≡ decided direction_down (some u)
      → IsSimulated env spec plan (current_replicas_of p.deployment) u
  unfolding measure
  measure-down env spec plan u p h =
      elim (Result-cases (calculate {F = F} env p.calls p.deployment.name).1) [
        | inl (r, e) ↦
            judge_load-down env spec plan r u
              (record p { calls = (calculate {F = F} env p.calls p.deployment.name).0 })
              (ground arith)
        | inr (why, e) ↦ absurd (ground arith)
      ]

  determine_direction-down :
      (env : Env) (spec : ScalingPolicySpec) (plan : Option (Plan F)) (cluster_name : String)
      (u : UtilizationResult F) (p : Pass)
      → (determine_direction env spec plan cluster_name p).1 ≡ decided direction_down (some u)
      → IsSimulated env spec plan (current_replicas_of p.deployment) u
  unfolding determine_direction ask_cluster
  determine_direction-down env spec plan cluster_name u p h =
      let asked =
        measure-down env spec plan u
          (call (client_for_cluster cluster_name p.deployment.namespace) p) in
      ground arith

  -- If the answer is to scale down, the load is below the downscale threshold and not above the
  -- upscale threshold, the current plan is known, and the workload pods of the nodes can be packed
  -- onto as many nodes of the current plan as there are replicas: each pod on exactly one of them,
  -- admitted by its labels and taints, and on each no more than the plan allocates. Conditions:
  -- `sort.Slice` permutes its argument, and no pod of the load requests a negative amount.
  pub determine_direction-IsPacking :
      (env : Env) (spec : ScalingPolicySpec) (plan : Option (Plan F)) (cluster_name : String)
      (u : UtilizationResult F) (p : Pass)
      → ((less : Pod → Pod → Bool) (pods : List Pod) → Perm (env.sort_slice less pods) pods)
      → All HasRequests (collect_pods u.nodes)
      → (determine_direction env spec plan cluster_name p).1 ≡ decided direction_down (some u)
      → (needs spec u ≡ (false, true))
        × ((current : Plan F) × (bins : List (List Pod)) × (plan ≡ some current)
            × IsPacking env.parse_quantity
                (virtual_node u.nodes (alloc_cpu current) (alloc_memory current))
                (pos_part (current_replicas_of p.deployment))
                (collect_pods u.nodes)
                bins)
  determine_direction-IsPacking env spec plan cluster_name u p sorts requests down =
      let (current, s, known, e, safe, low) =
        determine_direction-down env spec plan cluster_name u p down in
      let (bins, packing) =
        simulate_downscale-IsPacking env.parse_quantity env.sort_slice u.nodes current
          (current_replicas_of p.deployment) s sorts requests e safe in
      (low, (current, bins, known, packing))

  judge_load-Untouched :
      (env : Env) (spec : ScalingPolicySpec) (plan : Option (Plan F)) (r : UtilizationResult F)
      (p : Pass)
      → All IsReadOnly p.calls
      → All IsReadOnly (judge_load env spec plan r p).0.calls
        × ((judge_load env spec plan r p).0.deployment ≡ p.deployment)
        × ((judge_load env spec plan r p).0.status ≡ p.status)
  unfolding judge_load judge_downscale
  judge_load-Untouched env spec none r p h = ground arith
  judge_load-Untouched env spec (some current) r p h = ground arith

  measure-Untouched :
      (env : Env) (spec : ScalingPolicySpec) (plan : Option (Plan F)) (p : Pass)
      → All IsReadOnly p.calls
      → All IsReadOnly (measure env spec plan p).0.calls
        × ((measure env spec plan p).0.deployment ≡ p.deployment)
        × ((measure env spec plan p).0.status ≡ p.status)
  unfolding measure
  measure-Untouched env spec plan p h =
      let q = record p { calls = (calculate {F = F} env p.calls p.deployment.name).0 } in
      let h' = calculate-IsReadOnly F env p.calls p.deployment.name h in
      elim (Result-cases (calculate {F = F} env p.calls p.deployment.name).1) [
        | inl (r, e) ↦ rw (e, measure) (judge_load-Untouched env spec plan r q h')
        | inr (why, e) ↦ ground arith
      ]

  -- Whatever it answers, and whatever fails, the question for the direction makes no call that
  -- changes a cluster, and leaves the MachineDeployment and the fields of the status by which passes
  -- are steered as they were. Condition: so it was with the calls before.
  pub determine_direction-Untouched :
      (env : Env) (spec : ScalingPolicySpec) (plan : Option (Plan F)) (cluster_name : String)
      (p : Pass)
      → All IsReadOnly p.calls
      → All IsReadOnly (determine_direction env spec plan cluster_name p).0.calls
        × ((determine_direction env spec plan cluster_name p).0.deployment ≡ p.deployment)
        × ((determine_direction env spec plan cluster_name p).0.status ≡ p.status)
  unfolding determine_direction ask_cluster
  determine_direction-Untouched env spec plan cluster_name p h =
      let rest =
        measure-Untouched env spec plan
          (call (client_for_cluster cluster_name p.deployment.namespace) p) (tt, h) in
      ground arith
