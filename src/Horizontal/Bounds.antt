-- ===== src/Horizontal/Bounds.antt =====
-- How a pass may resize the MachineDeployment.
use vpsie_k8s_capi_autoscale.Base.{
  ℤ, pos, ◌+ℤ◌, ◌-ℤ◌, ◌≤ℤ◌, InInt32, one_part, -ℤ_parts, add32-below, sub32, sub32_exact, ltb_ℤ→le,
  leb_ℤ, le→ltb_ℤ, ◌≡◌, refl, ◌⊎◌, String, Bool, false, Option, All, arith, ◌≢◌, string_eq,
}
use vpsie_k8s_capi_autoscale.Float.{Float64}
use vpsie_k8s_capi_autoscale.Plan.{Plan}
use vpsie_k8s_capi_autoscale.Policy.{ScalingPolicySpec}
use vpsie_k8s_capi_autoscale.Utilization.Thresholds.{UtilizationResult}
use vpsie_k8s_capi_autoscale.World.{Call, Env, patch_replicas}
use vpsie_k8s_capi_autoscale.Horizontal.Pass.{
  Pass, Outcome, current_replicas_of, min_replicas_of, max_replicas_of,
}
use vpsie_k8s_capi_autoscale.Horizontal.Drain.{reduced, check_pending, finish_drain, continue_drain}
use vpsie_k8s_capi_autoscale.Horizontal.Rollout.{await_rollout}
use vpsie_k8s_capi_autoscale.Horizontal.ScaleUp.{raised, scale_up}
use vpsie_k8s_capi_autoscale.Horizontal.ScaleDown.{scale_down}
use vpsie_k8s_capi_autoscale.Horizontal.Reconcile.{reconcile_horizontal}
use vpsie_k8s_capi_autoscale.Horizontal.Cases.{
  asked, with_pending_cases, reconcile_horizontal_cases,
}

-- With a node below the maximum, one more.
raised_lem :
    (max current : ℤ)
    → InInt32 max
    → InInt32 current
    → leb_ℤ max current ≡ false
    → (raised max current ≡ current +ℤ pos 1) × (raised max current ≤ℤ max)
unfolding raised
raised_lem max current m c h =
    let (exact, top) = add32-below max current m c h in
    rw (exact, le→ltb_ℤ max (current +ℤ pos 1) top) (refl, top)

-- One less, or the minimum.
reduced_lem :
    (min current : ℤ)
    → InInt32 current
    → pos 0 ≤ℤ current
    → (min ≤ℤ reduced min current)
      × ((reduced min current ≡ current -ℤ pos 1) ⊎ (reduced min current ≡ min))
unfolding reduced
reduced_lem min current c h =
    let exact : sub32 current (pos 1) ≡ current -ℤ pos 1 =
      sub32_exact current (pos 1)
        (omega (arith, -ℤ_parts current (pos 1), one_part current, one_part (current -ℤ pos 1))) in
    rw exact (ground (arith, ltb_ℤ→le (current -ℤ pos 1) min))

abbrev pub IsScaleUp : ScalingPolicySpec → ℤ → Call → Type 0
IsScaleUp spec current (patch_replicas _ n) =
    (n ≡ current +ℤ pos 1) × (n ≤ℤ max_replicas_of spec.horizontal)
IsScaleUp spec current _ = Unit

abbrev pub IsScaleDown : ScalingPolicySpec → ℤ → Call → Type 0
IsScaleDown spec current (patch_replicas _ n) =
    (min_replicas_of spec.horizontal ≤ℤ n)
    × ((n ≡ current -ℤ pos 1) ⊎ (n ≡ min_replicas_of spec.horizontal))
IsScaleDown spec current _ = Unit

scale_up-IsScaleUp :
    (env : Env) (spec : ScalingPolicySpec) (is_dry : Bool) (current : ℤ) (p : Pass)
    → InInt32 (max_replicas_of spec.horizontal)
    → InInt32 current
    → All (IsScaleUp spec current) p.calls
    → All
        (IsScaleUp spec current)
        (scale_up env is_dry (max_replicas_of spec.horizontal) current p).0.calls
unfolding scale_up
scale_up-IsScaleUp env spec is_dry current p m c h =
    ground (arith, raised_lem (max_replicas_of spec.horizontal) current m c)

await_rollout-IsScaleUp :
    (env : Env) (spec : ScalingPolicySpec) (current : ℤ) (p : Pass)
    → All (IsScaleUp spec current) p.calls
    → All (IsScaleUp spec current) (await_rollout env p).0.calls
unfolding await_rollout
await_rollout-IsScaleUp env spec current p h = ground arith

continue_drain-IsScaleDown :
    (env : Env) (spec : ScalingPolicySpec) (current : ℤ) (p : Pass)
    → InInt32 current
    → pos 0 ≤ℤ current
    → All (IsScaleDown spec current) p.calls
    → All
        (IsScaleDown spec current)
        (continue_drain env (min_replicas_of spec.horizontal) current p).0.calls
unfolding continue_drain check_pending finish_drain
continue_drain-IsScaleDown env spec current p c l h =
    ground (arith, reduced_lem (min_replicas_of spec.horizontal) current c l)

module _ {F : Type 0} ⦃f : Float64 F⦄ where
  scale_down-IsScaleUp :
      (env : Env) (spec : ScalingPolicySpec) (util : Option (UtilizationResult F)) (min current : ℤ)
      (p : Pass)
      → All (IsScaleUp spec current) p.calls
      → All (IsScaleUp spec current) (scale_down env spec util min current p).0.calls
  unfolding scale_down
  scale_down-IsScaleUp env spec util min current p h = ground arith

  -- While no drain is in progress, a pass resizes the MachineDeployment only upwards, by one replica
  -- and up to the maximum. Conditions: the replicas and the maximum are `int32` values, and the calls
  -- before the pass were of that kind too.
  pub reconcile_horizontal-IsScaleUp :
      (env : Env) (spec : ScalingPolicySpec) (cluster_name : String)
      (util : Option (UtilizationResult F)) (plan : Option (Plan F)) (p : Pass)
      → p.status.draining_node ≡ ""
      → InInt32 (max_replicas_of spec.horizontal)
      → InInt32 (current_replicas_of p.deployment)
      → All (IsScaleUp spec (current_replicas_of p.deployment)) p.calls
      → All
          (IsScaleUp spec (current_replicas_of p.deployment))
          (reconcile_horizontal env spec cluster_name util plan p).0.calls
  reconcile_horizontal-IsScaleUp env spec cluster_name util plan p idle m c h =
      let current = current_replicas_of p.deployment in
      let P : Outcome → Type 0 = λ o. All (IsScaleUp spec current) o.0.calls in
      let h' : All (IsScaleUp spec current) (asked cluster_name p).calls = (tt, (tt, h)) in
      reconcile_horizontal_cases P env spec cluster_name util plan p h (λ _. (tt, h)) (λ _. h')
        λ pods.
          with_pending_cases P env spec util _ (asked cluster_name p) (λ busy. absurd (busy idle))
            (λ _ _. await_rollout-IsScaleUp env spec current _ h')
            (λ _ _. scale_down-IsScaleUp env spec util _ current _ h')
            (λ _ _ _. scale_up-IsScaleUp env spec spec.dry_run current _ m c h')

  -- While a drain is in progress, a pass resizes the MachineDeployment only by one replica downwards
  -- or to the minimum, and never below the minimum. Conditions: the replicas are an `int32` value and
  -- not negative, and the calls before the pass were of that kind too.
  pub reconcile_horizontal-IsScaleDown :
      (env : Env) (spec : ScalingPolicySpec) (cluster_name : String)
      (util : Option (UtilizationResult F)) (plan : Option (Plan F)) (p : Pass)
      → p.status.draining_node ≢ ""
      → InInt32 (current_replicas_of p.deployment)
      → pos 0 ≤ℤ current_replicas_of p.deployment
      → All (IsScaleDown spec (current_replicas_of p.deployment)) p.calls
      → All
          (IsScaleDown spec (current_replicas_of p.deployment))
          (reconcile_horizontal env spec cluster_name util plan p).0.calls
  reconcile_horizontal-IsScaleDown env spec cluster_name util plan p busy c l h =
      let current = current_replicas_of p.deployment in
      let P : Outcome → Type 0 = λ o. All (IsScaleDown spec current) o.0.calls in
      let h' : All (IsScaleDown spec current) (asked cluster_name p).calls = (tt, (tt, h)) in
      reconcile_horizontal_cases P env spec cluster_name util plan p h (λ _. (tt, h)) (λ _. h')
        λ pods.
          with_pending_cases P env spec util _ (asked cluster_name p)
            (λ _. continue_drain-IsScaleDown env spec current _ c l h')
            (λ idle _. absurd (busy idle)) (λ idle _. absurd (busy idle))
            (λ idle _ _. absurd (busy idle))
