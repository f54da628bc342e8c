-- ===== src/Horizontal/DryRun.antt =====
-- What a pass does when the policy asks for a dry run.
use vpsie_k8s_capi_autoscale.Base.{ℤ, ◌≡◌, refl, String, true, Option, All, arith, string_eq}
use vpsie_k8s_capi_autoscale.Float.{Float64}
use vpsie_k8s_capi_autoscale.Plan.{Plan}
use vpsie_k8s_capi_autoscale.Policy.{ScalingPolicySpec}
use vpsie_k8s_capi_autoscale.Utilization.Thresholds.{UtilizationResult}
use vpsie_k8s_capi_autoscale.World.{
  Call, Env, MachineDeployment, patch_replicas, patch_infrastructure, cordon_node, uncordon_node,
  drain_node, create_deployment, create_template, delete_deployment, delete_template,
}
use vpsie_k8s_capi_autoscale.Horizontal.Pass.{Pass, Outcome}
use vpsie_k8s_capi_autoscale.Horizontal.Rollout.{await_rollout}
use vpsie_k8s_capi_autoscale.Horizontal.ScaleUp.{scale_up}
use vpsie_k8s_capi_autoscale.Horizontal.ScaleDown.{scale_down}
use vpsie_k8s_capi_autoscale.Horizontal.Reconcile.{reconcile_horizontal}
use vpsie_k8s_capi_autoscale.Horizontal.Cases.{
  asked, with_pending_cases, reconcile_horizontal_cases,
}

-- The call changes neither the workload cluster nor the MachineDeployment.
abbrev pub IsReadOnly : Call → Type 0
IsReadOnly (cordon_node _) = ⊥
IsReadOnly (uncordon_node _) = ⊥
IsReadOnly (drain_node _) = ⊥
IsReadOnly (patch_replicas _ _) = ⊥
IsReadOnly (patch_infrastructure _ _) = ⊥
IsReadOnly (create_template _ _ _) = ⊥
IsReadOnly (create_deployment _) = ⊥
IsReadOnly (delete_deployment _) = ⊥
IsReadOnly (delete_template _) = ⊥
IsReadOnly _ = Unit

-- Only such calls were made, and the MachineDeployment is as it was.
abbrev pub Untouched : MachineDeployment → Outcome → Type 0
Untouched md (p, _) = All IsReadOnly p.calls × (p.deployment ≡ md)

await_rollout-Untouched :
    (env : Env) (p : Pass)
    → p.status.previous_infra_template ≡ ""
    → All IsReadOnly p.calls
    → Untouched p.deployment (await_rollout env p)
unfolding await_rollout
await_rollout-Untouched env p none_kept h = ground arith

scale_up-Untouched :
    (env : Env) (max current : ℤ) (p : Pass)
    → All IsReadOnly p.calls
    → Untouched p.deployment (scale_up env true max current p)
unfolding scale_up
scale_up-Untouched env max current p h = ground arith

module _ {F : Type 0} ⦃f : Float64 F⦄ where
  scale_down-Untouched :
      (env : Env) (spec : ScalingPolicySpec) (util : Option (UtilizationResult F)) (min current : ℤ)
      (p : Pass)
      → spec.dry_run ≡ true
      → All IsReadOnly p.calls
      → Untouched p.deployment (scale_down env spec util min current p)
  unfolding scale_down
  scale_down-Untouched env spec util min current p dry h = ground arith

  -- In a dry run, if no drain is in progress and no previous template is noted, a pass makes no call
  -- that changes a cluster, and leaves the MachineDeployment as it was. Condition: so it was with the
  -- calls before the pass.
  pub reconcile_horizontal-Untouched :
      (env : Env) (spec : ScalingPolicySpec) (cluster_name : String)
      (util : Option (UtilizationResult F)) (plan : Option (Plan F)) (p : Pass)
      → spec.dry_run ≡ true
      → p.status.draining_node ≡ ""
      → p.status.previous_infra_template ≡ ""
      → All IsReadOnly p.calls
      → Untouched p.deployment (reconcile_horizontal env spec cluster_name util plan p)
  reconcile_horizontal-Untouched env spec cluster_name util plan p dry idle kept h =
      let P = Untouched p.deployment in
      let h' : All IsReadOnly (asked cluster_name p).calls = (tt, (tt, h)) in
      reconcile_horizontal_cases P env spec cluster_name util plan p (h, refl)
        (λ _. ((tt, h), refl)) (λ _. (h', refl))
        λ pods.
          with_pending_cases P env spec util _ (asked cluster_name p) (λ busy. absurd (busy idle))
            (λ _ _. await_rollout-Untouched env _ kept h')
            (λ _ _. scale_down-Untouched env spec util _ _ _ dry h')
            (λ _ _ _. rw dry (scale_up-Untouched env _ _ _ h'))
