-- ===== src/Direction.antt =====
-- internal/controller/scalingpolicy_controller.go: `determineDirection`, by which a policy's plan is
-- chosen upwards, downwards or either way. Its errors are always nil.
pub mod Verdict
use vpsie_k8s_capi_autoscale.Base.{
  zero, ℤ, pos, ◌≡◌, ◌⊎◌, inl, inr, refl, String, Bool, true, false, Option, none, some, ok, err,
  if◌then◌else◌,
}
use vpsie_k8s_capi_autoscale.Float.{Float64}
use vpsie_k8s_capi_autoscale.Plan.{Plan}
use vpsie_k8s_capi_autoscale.Policy.{ScalingPolicySpec}
use vpsie_k8s_capi_autoscale.Scheduler.Packing.{simulate_downscale}
use vpsie_k8s_capi_autoscale.Selector.{
  ScalingDirection, direction_any, direction_up, direction_down,
}
use vpsie_k8s_capi_autoscale.Utilization.Thresholds.{UtilizationResult, evaluate_thresholds}
use vpsie_k8s_capi_autoscale.Utilization.Calculator.{calculate}
use vpsie_k8s_capi_autoscale.World.{
  Env, client_for_cluster, utilization_ready, scheduling_simulation, plan_selected,
  workload_access_failed, utilization_calculated, metrics_unavailable, scale_up_triggered,
  scale_down_triggered, scale_down_blocked, utilization_in_range,
}
use vpsie_k8s_capi_autoscale.Horizontal.Pass.{
  Pass, call, condition, current_replicas_of, down_threshold_of,
}

-- `scaleUpThreshold`, 75 if it is not set.
unfoldable pub up_threshold_of : ℤ → ℤ
up_threshold_of (pos zero) = pos 75
up_threshold_of t = t

-- The direction and the load, if it is known; or a panic of the simulation.
pub data Decision (F : Type 0) : Type 0 where
  decided : ScalingDirection → Option (UtilizationResult F) → Decision F
  crashed : Decision F

pub Decision-cases :
    {F : Type 0} (d : Decision F)
    → (d ≡ crashed)
      ⊎ ((way : ScalingDirection) × (util : Option (UtilizationResult F)) × (d ≡ decided way util))
Decision-cases crashed = inl refl
Decision-cases (decided way util) = inr (way, util, refl)

module _ {F : Type 0} ⦃f : Float64 F⦄ where
  -- Do the pods fit on the nodes that there are?
  unfoldable pub judge_downscale : Env → Plan F → UtilizationResult F → Pass → Pass × Decision F
  judge_downscale env plan r p =
      elim (simulate_downscale env.parse_quantity env.sort_slice r.nodes plan
        (current_replicas_of p.deployment)) [
          | none ↦ (p, crashed)
          | some s ↦
              if s.safe
              then (
                condition scheduling_simulation true scale_down_triggered p,
                decided direction_down (some r),
              )
              else (
                condition scheduling_simulation false scale_down_blocked p,
                decided direction_any (some r),
              )
        ]

  abbrev in_range : UtilizationResult F → Pass → Pass × Decision F
  in_range r p =
      (condition utilization_ready true utilization_in_range p, decided direction_any (some r))

  -- The load is known.
  unfoldable pub judge_load :
      Env → ScalingPolicySpec → Option (Plan F) → UtilizationResult F → Pass → Pass × Decision F
  unfolding judge_downscale
  judge_load env spec plan r p =
      let reason = if r.metrics_available then utilization_calculated else metrics_unavailable in
      let p = condition utilization_ready true reason p in
      let (needs_up, needs_down) =
        evaluate_thresholds r (up_threshold_of spec.target_utilization.scale_up_threshold)
          (down_threshold_of spec.target_utilization.scale_down_threshold) in
      if needs_up
      then (condition plan_selected true scale_up_triggered p, decided direction_up (some r))
      else if needs_down
      then elim plan [ none ↦ in_range r p | some current ↦ judge_downscale env current r p ]
      else in_range r p

  -- Without an answer from the cluster, either way, and the load is not known.
  abbrev unknown : Pass → Pass × Decision F
  unknown p =
      (condition utilization_ready false workload_access_failed p, decided direction_any none)

  unfoldable pub measure : Env → ScalingPolicySpec → Option (Plan F) → Pass → Pass × Decision F
  unfolding judge_load
  measure env spec plan p =
      let (calls, result) = calculate env p.calls p.deployment.name in
      let p = record p { calls = calls } in
      elim result [ err _ ↦ unknown p | ok r ↦ judge_load env spec plan r p ]

  unfoldable pub ask_cluster :
      Env → ScalingPolicySpec → Option (Plan F) → String → Pass → Pass × Decision F
  unfolding measure
  ask_cluster env spec plan cluster_name p =
      let p = call (client_for_cluster cluster_name p.deployment.namespace) p in
      elim (env.connect p.calls) [ err _ ↦ unknown p | ok _ ↦ measure env spec plan p ]

  unfoldable pub determine_direction :
      Env → ScalingPolicySpec → Option (Plan F) → String → Pass → Pass × Decision F
  unfolding ask_cluster
  determine_direction env spec plan cluster_name p =
      if env.has_workload_clients
      then ask_cluster env spec plan cluster_name p
      else (p, decided direction_any none)
