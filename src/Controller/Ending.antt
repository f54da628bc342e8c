-- ===== src/Controller/Ending.antt =====
-- In a dry run `Reconcile` of internal/controller/scalingpolicy_controller.go writes no status that a later
-- pass would act upon.
use Prim.Native.Char.{Char}
use vpsie_k8s_capi_autoscale.Base.{
  ◌≡◌, ◌∙◌, ap, inl, inr, String, true, Option, none, some, List, ◌∷◌, Dict, All, Result-cases,
  index_string, arith, string_eq,
}
use vpsie_k8s_capi_autoscale.Float.{Float64}
use vpsie_k8s_capi_autoscale.Plan.{Plan}
use vpsie_k8s_capi_autoscale.Policy.{ObjectReference, ScalingPolicyStatus}
use vpsie_k8s_capi_autoscale.World.{
  Calls, Env, MachineDeployment, Lookup-cases, ConditionType, ConditionReason, set_condition,
  get_policy, get_target, found, target_resolved, target_found, pricing_data_ready,
  pricing_data_loaded,
}
use vpsie_k8s_capi_autoscale.Pricing.Cache.{Cache}
use vpsie_k8s_capi_autoscale.PlanSwitch.{MachineTemplate}
use vpsie_k8s_capi_autoscale.Selector.{ScalingDirection}
use vpsie_k8s_capi_autoscale.Utilization.Thresholds.{UtilizationResult}
use vpsie_k8s_capi_autoscale.Horizontal.Pass.{Pass, now, exit_cases}
use vpsie_k8s_capi_autoscale.Horizontal.DryRun.{IsReadOnly}
use vpsie_k8s_capi_autoscale.Horizontal.Reconcile.{reconcile_horizontal}
use vpsie_k8s_capi_autoscale.Direction.{determine_direction, Decision-cases}
use vpsie_k8s_capi_autoscale.Direction.Verdict.{determine_direction-Untouched}
use vpsie_k8s_capi_autoscale.NodePool.Groups.{PlanGroup}
use vpsie_k8s_capi_autoscale.NodePool.Satellite.{cluster_label}
use vpsie_k8s_capi_autoscale.NodePool.Pools.{reconcile_node_pools}
use vpsie_k8s_capi_autoscale.Controller.{Policy, Objects, Caches}
use vpsie_k8s_capi_autoscale.Controller.DryRun.{IsIdle}
use vpsie_k8s_capi_autoscale.Controller.Credentials.{target_namespace, resolve_credentials}
use vpsie_k8s_capi_autoscale.Controller.Prices.{ensure_cache, freshen}
use vpsie_k8s_capi_autoscale.Controller.Conclude.{
  Ended, write_status, give_up, act, conclude, with_utilization,
}
use vpsie_k8s_capi_autoscale.Controller.Reconcile.{
  scale_and_conclude, direct, with_prices, with_target, reconcile_policy, reconcile,
}
use vpsie_k8s_capi_autoscale.Controller.Reads.{
  freshen-IsReadOnly, resolve_current_plan-IsReadOnly, resolve_credentials-IsReadOnly,
}
use vpsie_k8s_capi_autoscale.Controller.Idle.{
  reconcile_horizontal-IsIdle, reconcile_node_pools-IsIdle,
}

-- The policy that is written at the end, if any, is idle.
abbrev pub EndsIdle : {F : Type 0} → Option (Policy F) → Type 0
EndsIdle none = Unit
EndsIdle (some policy) = IsIdle policy.status

give_up-IsIdle :
    {F : Type 0} (env : Env) (t : ConditionType) (reason : ConditionReason) (policy : Policy F)
    (caches : Caches F) (calls : Calls)
    → IsIdle policy.status
    → EndsIdle (give_up env t reason policy caches calls).policy
unfolding give_up write_status
give_up-IsIdle env t reason policy caches calls (a, b) = ground arith

conclude-IsIdle :
    {F K : Type 0} ⦃f : Float64 F⦄ (lower_rune : Char → Char) (env : Env) (policy : Policy F)
    (caches : Caches F) (cache : Cache F) (current : Option (Plan F))
    (template : Option (MachineTemplate K)) (util : Option (UtilizationResult F))
    (way : ScalingDirection) (p : Pass)
    → policy.spec.dry_run ≡ true
    → IsIdle p.status
    → EndsIdle (conclude lower_rune env policy caches cache current template util way p).policy
unfolding conclude write_status act
conclude-IsIdle lower_rune env policy caches cache current template util way p dry (a, b) =
    ground arith

module _ {F K : Type 0} ⦃f : Float64 F⦄ (lower_rune : Char → Char)
    (range : Dict (PlanGroup F) → List (String × PlanGroup F)) (env : Env)
    (objects : Objects F K) where
  scale_and_conclude-IsIdle :
      (policy : Policy F) (caches : Caches F) (cache : Cache F) (current : Option (Plan F))
      (template : Option (MachineTemplate K)) (util : Option (UtilizationResult F))
      (way : ScalingDirection) (cluster_name : String) (p : Pass)
      → policy.spec.dry_run ≡ true
      → IsIdle policy.status
      → IsIdle p.status
      → EndsIdle
          (scale_and_conclude lower_rune range env objects policy caches cache current template util
            way cluster_name p).policy
  unfolding scale_and_conclude
  scale_and_conclude-IsIdle policy caches cache current template util way cluster_name p dry known
        h =
      let (scaled, exit) = reconcile_horizontal env policy.spec cluster_name util current p in
      let h' = reconcile_horizontal-IsIdle env policy.spec cluster_name util current p dry h in
      let (pooled, exit') =
        reconcile_node_pools lower_rune range env policy.spec cache cluster_name current template
          scaled in
      let h'' =
        reconcile_node_pools-IsIdle lower_rune range env policy.spec cache cluster_name current
          template scaled dry h' in
      let last =
        conclude-IsIdle lower_rune env policy caches cache current template util way pooled dry
          h'' in
      let E : Ended F → Type 0 = λ e. EndsIdle e.policy in
      exit_cases E exit known (exit_cases E exit' known last)

  direct-IsIdle :
      (policy : Policy F) (caches : Caches F) (cache : Cache F) (current : Option (Plan F))
      (template : Option (MachineTemplate K)) (p : Pass)
      → policy.spec.dry_run ≡ true
      → IsIdle policy.status
      → IsIdle p.status
      → All IsReadOnly p.calls
      → EndsIdle (direct lower_rune range env objects policy caches cache current template p).policy
  unfolding direct
  direct-IsIdle policy caches cache current template p dry known (a, b) quiet =
      let cluster_name = index_string cluster_label p.deployment.labels in
      let directed = determine_direction env policy.spec current cluster_name p in
      let (_, _, same) =
        determine_direction-Untouched env policy.spec current cluster_name p quiet in
      elim (Decision-cases directed.1) [
        | inl e ↦ rw (direct, e) known
        | inr (way, util, e) ↦
            rw (direct, e)
              (scale_and_conclude-IsIdle
                (record policy {
                  report = with_utilization util (now env directed.0) policy.report;
                })
                caches cache current template util way cluster_name directed.0 dry known
                (
                  ap (λ s. ScalingPolicyStatus.draining_node s) same ∙ a,
                  ap (λ s. ScalingPolicyStatus.previous_infra_template s) same ∙ b,
                ))
      ]

  with_target-IsIdle :
      (policy : Policy F) (caches : Caches F) (md : MachineDeployment) (calls : Calls)
      → policy.spec.dry_run ≡ true
      → IsIdle policy.status
      → All IsReadOnly calls
      → EndsIdle (with_target lower_rune range env objects policy caches md calls).policy
  unfolding with_target with_prices
  with_target-IsIdle policy caches md calls dry idle quiet =
      let noted = set_condition target_resolved true target_found ∷ calls in
      let known = resolve_credentials objects policy noted in
      let quiet' = resolve_credentials-IsReadOnly objects policy noted (tt, quiet) in
      elim (Result-cases known.1) [
        | inr (why, e) ↦ rw (with_target, e) (give_up-IsIdle env _ _ policy caches _ idle)
        | inl (key, e) ↦
            elim (Result-cases (
              ensure_cache objects policy.uid key policy.spec.dc_identifier
                policy.spec.os_identifier policy.spec.plan_refresh_interval caches)) [
                  | inr (why, e') ↦ rw (with_target, e, e') idle
                  | inl ((caches', source), e') ↦
                      let fresh = freshen objects lower_rune env source known.0 in
                      let quiet'' =
                        freshen-IsReadOnly objects lower_rune env source known.0 quiet' in
                      elim (Result-cases fresh.1) [
                        | inr (why, e'') ↦
                            rw (with_target, e, e', e'')
                              (give_up-IsIdle env _ _ policy caches' _ idle)
                        | inl (source', e'') ↦
                            rw (with_target, e, e', e'')
                              (direct-IsIdle _ _ _ _ _ _ dry idle idle (
                                resolve_current_plan-IsReadOnly objects md source'.cache
                                  (set_condition pricing_data_ready true pricing_data_loaded
                                    ∷ fresh.0)
                                  (tt, quiet'')))
                      ]
                ]
      ]

  -- In a dry run a reconciliation of a policy without a drain or a previous template ends with a status
  -- that notes neither.
  pub reconcile-IsIdle :
      (namespace name : String) (policy : Policy F) (caches : Caches F) (calls : Calls)
      → objects.policy (get_policy namespace name ∷ calls) ≡ found policy
      → policy.spec.dry_run ≡ true
      → IsIdle policy.status
      → All IsReadOnly calls
      → EndsIdle (reconcile lower_rune range env objects namespace name caches calls).policy
  unfolding reconcile reconcile_policy
  reconcile-IsIdle namespace name policy caches calls read dry idle quiet =
      let asked =
        get_target (target_namespace policy) (ObjectReference.name policy.spec.target_ref)
        ∷ get_policy namespace name
        ∷ calls in
      elim (Lookup-cases (objects.target asked)) [
        | inl (md, e) ↦
            rw (reconcile, read, reconcile_policy, e)
              (with_target-IsIdle policy caches md asked dry idle (tt, (tt, quiet)))
        | inr (inl (why, e)) ↦
            rw (reconcile, read, reconcile_policy, e)
              (give_up-IsIdle env _ _ policy caches asked idle)
        | inr (inr (why, e)) ↦ rw (reconcile, read, reconcile_policy, e) idle
      ]
