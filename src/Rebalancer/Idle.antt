-- ===== src/Rebalancer/Idle.antt =====
-- In a dry run the rebalancer of internal/controller/rebalancer.go writes no status that a later pass
-- would act upon.
use Prim.Native.Char.{Char}
use vpsie_k8s_capi_autoscale.Base.{
  ◌≡◌, ◌∙◌, ap, inl, inr, true, Option, ◌∷◌, All, Bool-cases, Option-cases, Result-cases, lookup,
  index_string, ltb_ℤ, arith,
}
use vpsie_k8s_capi_autoscale.Float.{Float64}
use vpsie_k8s_capi_autoscale.Plan.{Plan}
use vpsie_k8s_capi_autoscale.Policy.{ObjectReference, ScalingPolicyStatus}
use vpsie_k8s_capi_autoscale.PlanSwitch.{MachineTemplate}
use vpsie_k8s_capi_autoscale.Selector.{ScalingDirection}
use vpsie_k8s_capi_autoscale.Utilization.Thresholds.{UtilizationResult}
use vpsie_k8s_capi_autoscale.World.{
  Calls, Env, ConditionReason, MachineDeployment, Lookup-cases, get_target,
}
use vpsie_k8s_capi_autoscale.Horizontal.Pass.{Pass, current_replicas_of}
use vpsie_k8s_capi_autoscale.Horizontal.DryRun.{IsReadOnly}
use vpsie_k8s_capi_autoscale.Direction.{determine_direction, Decision-cases}
use vpsie_k8s_capi_autoscale.Direction.Verdict.{determine_direction-Untouched}
use vpsie_k8s_capi_autoscale.NodePool.Satellite.{cluster_label}
use vpsie_k8s_capi_autoscale.Pricing.Cache.{Cache}
use vpsie_k8s_capi_autoscale.Controller.{Policy, Objects, PriceSource, Caches}
use vpsie_k8s_capi_autoscale.Controller.DryRun.{IsIdle}
use vpsie_k8s_capi_autoscale.Controller.Credentials.{target_namespace}
use vpsie_k8s_capi_autoscale.Controller.Prices.{
  freshen, resolve_current_plan, choose_plan, switch_target,
}
use vpsie_k8s_capi_autoscale.Controller.Reads.{freshen-IsReadOnly, resolve_current_plan-IsReadOnly}
use vpsie_k8s_capi_autoscale.Rebalancer.{
  update_policy, refrain, choose_and_switch, direct_rebalance, rebalance_with, rebalance_deployment,
  rebalance_policy,
}
use vpsie_k8s_capi_autoscale.Rebalancer.Guards.{
  is_cooling, replicas_match, min_replicas_for_rebalance,
}

refrain-IsIdle :
    {F : Type 0} (env : Env) (reason : ConditionReason) (policy : Policy F) (caches : Caches F)
    (calls : Calls)
    → IsIdle policy.status
    → IsIdle (refrain env reason policy caches calls).policy.status
unfolding refrain update_policy
refrain-IsIdle env reason policy caches calls (a, b) = (ground arith, ground arith)

module _ {F K : Type 0} ⦃f : Float64 F⦄ (lower_rune : Char → Char) (env : Env) where
  choose_and_switch-IsIdle :
      (policy : Policy F) (caches : Caches F) (cache : Cache F) (current : Option (Plan F))
      (template : Option (MachineTemplate K)) (util : Option (UtilizationResult F))
      (way : ScalingDirection) (p : Pass)
      → policy.spec.dry_run ≡ true
      → IsIdle p.status
      → IsIdle
          (choose_and_switch lower_rune env policy caches cache current template util way
            p).policy.status
  unfolding choose_and_switch
  choose_and_switch-IsIdle policy caches cache current template util way p dry h =
      let target =
        switch_target policy.spec current
          (choose_plan lower_rune policy.spec cache util current way) in
      elim (Option-cases target) [
        | inl e ↦ rw (choose_and_switch, e) (refrain-IsIdle env _ _ caches _ h)
        | inr (plan, e) ↦ rw (choose_and_switch, e, dry) h
      ]

  direct_rebalance-IsIdle :
      (policy : Policy F) (caches : Caches F) (cache : Cache F) (current : Option (Plan F))
      (template : Option (MachineTemplate K)) (p : Pass)
      → policy.spec.dry_run ≡ true
      → IsIdle policy.status
      → IsIdle p.status
      → All IsReadOnly p.calls
      → IsIdle
          (direct_rebalance lower_rune env policy caches cache current template p).policy.status
  unfolding direct_rebalance
  direct_rebalance-IsIdle policy caches cache current template p dry known (a, b) quiet =
      let cluster_name = index_string cluster_label p.deployment.labels in
      let directed = determine_direction env policy.spec current cluster_name p in
      let (_, _, same) =
        determine_direction-Untouched env policy.spec current cluster_name p quiet in
      elim (Decision-cases directed.1) [
        | inl e ↦ rw (direct_rebalance, e) known
        | inr (way, util, e) ↦
            rw (direct_rebalance, e)
              (choose_and_switch-IsIdle policy caches cache current template util way directed.0 dry
                (
                  ap (λ s. ScalingPolicyStatus.draining_node s) same ∙ a,
                  ap (λ s. ScalingPolicyStatus.previous_infra_template s) same ∙ b,
                ))
      ]

module _ {F K : Type 0} ⦃f : Float64 F⦄ (lower_rune : Char → Char) (env : Env)
    (objects : Objects F K) (policy : Policy F) (dry : policy.spec.dry_run ≡ true)
    (idle : IsIdle policy.status) where
  rebalance_with-IsIdle :
      (caches : Caches F) (source : PriceSource F) (md : MachineDeployment) (calls : Calls)
      → All IsReadOnly calls
      → IsIdle (rebalance_with lower_rune env objects policy caches source md calls).policy.status
  unfolding rebalance_with
  rebalance_with-IsIdle caches source md calls quiet =
      let fresh = freshen objects lower_rune env source calls in
      let quiet' = freshen-IsReadOnly objects lower_rune env source calls quiet in
      elim (Result-cases fresh.1) [
        | inr (why, e) ↦ rw (rebalance_with, e) idle
        | inl (source', e) ↦
            let resolved = resolve_current_plan objects md source'.cache fresh.0 in
            let quiet'' = resolve_current_plan-IsReadOnly objects md source'.cache fresh.0 quiet' in
            elim (Option-cases resolved.3) [
              | inr (why, e') ↦ rw (rebalance_with, e, e') idle
              | inl e' ↦
                  rw (rebalance_with, e, e')
                    (direct_rebalance-IsIdle lower_rune env policy _ _ _ _ _ dry idle idle quiet'')
            ]
      ]

  rebalance_deployment-IsIdle :
      (caches : Caches F) (md : MachineDeployment) (calls : Calls)
      → All IsReadOnly calls
      → IsIdle (rebalance_deployment lower_rune env objects policy caches md calls).policy.status
  unfolding rebalance_deployment
  rebalance_deployment-IsIdle caches md calls quiet =
      elim (Bool-cases (ltb_ℤ (current_replicas_of md) min_replicas_for_rebalance)) [
        | inl e ↦ rw (rebalance_deployment, e) (refrain-IsIdle env _ policy caches _ idle)
        | inr e ↦ elim (Bool-cases (replicas_match md.up_to_date_replicas md.status_replicas)) [
          | inr e' ↦ rw (rebalance_deployment, e, e') (refrain-IsIdle env _ policy caches _ idle)
          | inl e' ↦ elim (Option-cases (lookup policy.uid caches)) [
            | inl e'' ↦ rw (rebalance_deployment, e, e', e'') idle
            | inr (source, e'') ↦
                rw (rebalance_deployment, e, e', e'')
                  (rebalance_with-IsIdle caches source md calls quiet)
          ]
        ]
      ]

  -- Nor does the policy note a drain or a previous template afterwards.
  pub rebalance_policy-IsIdle :
      (caches : Caches F) (calls : Calls)
      → All IsReadOnly calls
      → IsIdle (rebalance_policy lower_rune env objects policy caches calls).policy.status
  unfolding rebalance_policy
  rebalance_policy-IsIdle caches calls quiet =
      let asked =
        get_target (target_namespace policy) (ObjectReference.name policy.spec.target_ref)
        ∷ calls in
      elim (Bool-cases (is_cooling policy.spec policy.status (env.clock calls))) [
        | inl c ↦ rw (rebalance_policy, c) idle
        | inr c ↦ elim (Lookup-cases (objects.target asked)) [
          | inl (md, e) ↦
              rw (rebalance_policy, c, e) (rebalance_deployment-IsIdle caches md asked (tt, quiet))
          | inr (inl (why, e)) ↦ rw (rebalance_policy, c, e) idle
          | inr (inr (why, e)) ↦ rw (rebalance_policy, c, e) idle
        ]
      ]
