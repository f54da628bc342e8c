-- ===== src/Controller/DryRun.antt =====
-- What `Reconcile` of internal/controller/scalingpolicy_controller.go does in a dry run.
use Prim.Native.Char.{Char}
use vpsie_k8s_capi_autoscale.Base.{
  ◌≡◌, ◌∙◌, ap, inl, inr, String, true, Option, List, ◌∷◌, Dict, All, Result-cases, insert,
  index_string, arith, string_eq,
}
use vpsie_k8s_capi_autoscale.Float.{Float64}
use vpsie_k8s_capi_autoscale.Plan.{Plan}
use vpsie_k8s_capi_autoscale.Policy.{ScalingPolicyStatus, ScalingPolicySpec, ObjectReference}
use vpsie_k8s_capi_autoscale.World.{
  set_condition, pricing_data_ready, pricing_data_loaded, target_resolved, target_found, Calls, Env,
  MachineDeployment, Lookup-cases, ConditionType, ConditionReason, get_policy, get_target, found,
}
use vpsie_k8s_capi_autoscale.Pricing.Cache.{Cache}
use vpsie_k8s_capi_autoscale.PlanSwitch.{MachineTemplate}
use vpsie_k8s_capi_autoscale.Selector.{ScalingDirection}
use vpsie_k8s_capi_autoscale.Utilization.Thresholds.{UtilizationResult}
use vpsie_k8s_capi_autoscale.Horizontal.Pass.{Pass, now}
use vpsie_k8s_capi_autoscale.Horizontal.DryRun.{IsReadOnly, reconcile_horizontal-Untouched}
use vpsie_k8s_capi_autoscale.Horizontal.Reconcile.{reconcile_horizontal}
use vpsie_k8s_capi_autoscale.Direction.{determine_direction, Decision-cases}
use vpsie_k8s_capi_autoscale.Direction.Verdict.{determine_direction-Untouched}
use vpsie_k8s_capi_autoscale.NodePool.Groups.{PlanGroup}
use vpsie_k8s_capi_autoscale.NodePool.Satellite.{cluster_label}
use vpsie_k8s_capi_autoscale.NodePool.Pools.{reconcile_node_pools}
use vpsie_k8s_capi_autoscale.NodePool.DryRun.{reconcile_node_pools-IsReadOnly}
use vpsie_k8s_capi_autoscale.Controller.{Policy, Report, Objects, Caches}
use vpsie_k8s_capi_autoscale.Controller.Credentials.{target_namespace, resolve_credentials}
use vpsie_k8s_capi_autoscale.Controller.Prices.{ensure_cache, freshen, choose_plan, switch_target}
use vpsie_k8s_capi_autoscale.Controller.Reads.{
  freshen-IsReadOnly, resolve_current_plan-IsReadOnly, resolve_credentials-IsReadOnly,
}
use vpsie_k8s_capi_autoscale.Controller.Conclude.{
  with_recommendation, with_utilization, write_status, give_up, act, conclude,
}
use vpsie_k8s_capi_autoscale.Controller.Reconcile.{
  scale_and_conclude, direct, with_prices, with_target, reconcile_policy, reconcile,
}

give_up-IsReadOnly :
    {F : Type 0} (env : Env) (t : ConditionType) (reason : ConditionReason) (policy : Policy F)
    (caches : Caches F) (calls : Calls)
    → All IsReadOnly calls
    → All IsReadOnly (give_up env t reason policy caches calls).calls
unfolding give_up write_status
give_up-IsReadOnly env t reason policy caches calls h = ground arith

module _ {F K : Type 0} ⦃f : Float64 F⦄ (lower_rune : Char → Char) (env : Env) where
  act-IsReadOnly :
      (spec : ScalingPolicySpec) (target : Option (Plan F)) (template : Option (MachineTemplate K))
      (report : Report F) (p : Pass)
      → spec.dry_run ≡ true
      → All IsReadOnly p.calls
      → All IsReadOnly (act lower_rune env spec target template report p).0.calls
  unfolding act
  act-IsReadOnly spec target template report p dry h = ground arith

  conclude-IsReadOnly :
      (policy : Policy F) (caches : Caches F) (cache : Cache F) (current : Option (Plan F))
      (template : Option (MachineTemplate K)) (util : Option (UtilizationResult F))
      (way : ScalingDirection) (p : Pass)
      → policy.spec.dry_run ≡ true
      → All IsReadOnly p.calls
      → All IsReadOnly
          (conclude lower_rune env policy caches cache current template util way p).calls
  unfolding conclude write_status
  conclude-IsReadOnly policy caches cache current template util way p dry h =
      let target =
        switch_target policy.spec current
          (choose_plan lower_rune policy.spec cache util current way) in
      let report =
        with_recommendation current (choose_plan lower_rune policy.spec cache util current way)
          p.deployment policy.report in
      let acted = act-IsReadOnly policy.spec target template report p dry h in ground arith

-- Nothing is under way that a pass would bring to an end.
abbrev pub IsIdle : ScalingPolicyStatus → Type 0
IsIdle status = (status.draining_node ≡ "") × (status.previous_infra_template ≡ "")

module _ {F K : Type 0} ⦃f : Float64 F⦄ (lower_rune : Char → Char)
    (range : Dict (PlanGroup F) → List (String × PlanGroup F)) (env : Env)
    (objects : Objects F K) where
  scale_and_conclude-IsReadOnly :
      (policy : Policy F) (caches : Caches F) (cache : Cache F) (current : Option (Plan F))
      (template : Option (MachineTemplate K)) (util : Option (UtilizationResult F))
      (way : ScalingDirection) (cluster_name : String) (p : Pass)
      → policy.spec.dry_run ≡ true
      → IsIdle p.status
      → All IsReadOnly p.calls
      → All IsReadOnly
          (scale_and_conclude lower_rune range env objects policy caches cache current template util
            way cluster_name p).calls
  unfolding scale_and_conclude
  scale_and_conclude-IsReadOnly policy caches cache current template util way cluster_name p dry
        (undrained, unkept) h =
      let scaled = reconcile_horizontal env policy.spec cluster_name util current p in
      let (h', _) =
        reconcile_horizontal-Untouched env policy.spec cluster_name util current p dry undrained
          unkept h in
      let pooled =
        reconcile_node_pools lower_rune range env policy.spec cache cluster_name current template
          scaled.0 in
      let h'' =
        reconcile_node_pools-IsReadOnly lower_rune range env policy.spec cache cluster_name current
          template scaled.0 dry h' in
      let last =
        conclude-IsReadOnly lower_rune env policy caches cache current template util way pooled.0
          dry h'' in
      ground arith

  direct-IsReadOnly :
      (policy : Policy F) (caches : Caches F) (cache : Cache F) (current : Option (Plan F))
      (template : Option (MachineTemplate K)) (p : Pass)
      → policy.spec.dry_run ≡ true
      → IsIdle p.status
      → All IsReadOnly p.calls
      → All IsReadOnly
          (direct lower_rune range env objects policy caches cache current template p).calls
  unfolding direct
  direct-IsReadOnly policy caches cache current template p dry (undrained, unkept) h =
      let cluster_name = index_string cluster_label p.deployment.labels in
      let directed = determine_direction env policy.spec current cluster_name p in
      let (h', _, same) = determine_direction-Untouched env policy.spec current cluster_name p h in
      elim (Decision-cases directed.1) [
        | inl e ↦ rw (direct, e) h'
        | inr (way, util, e) ↦
            rw (direct, e)
              (scale_and_conclude-IsReadOnly
                (record policy {
                  report = with_utilization util (now env directed.0) policy.report;
                })
                caches cache current template util way cluster_name directed.0 dry
                (
                  ap (λ s. ScalingPolicyStatus.draining_node s) same ∙ undrained,
                  ap (λ s. ScalingPolicyStatus.previous_infra_template s) same ∙ unkept,
                )
                h')
      ]

  with_prices-IsReadOnly :
      (policy : Policy F) (caches : Caches F) (cache : Cache F) (md : MachineDeployment)
      (calls : Calls)
      → policy.spec.dry_run ≡ true
      → IsIdle policy.status
      → All IsReadOnly calls
      → All IsReadOnly (with_prices lower_rune range env objects policy caches cache md calls).calls
  unfolding with_prices
  with_prices-IsReadOnly policy caches cache md calls dry idle h =
      direct-IsReadOnly _ caches cache _ _ _ dry idle (
        resolve_current_plan-IsReadOnly objects md cache
          (set_condition pricing_data_ready true pricing_data_loaded ∷ calls) (tt, h))

  with_target-IsReadOnly :
      (policy : Policy F) (caches : Caches F) (md : MachineDeployment) (calls : Calls)
      → policy.spec.dry_run ≡ true
      → IsIdle policy.status
      → All IsReadOnly calls
      → All IsReadOnly (with_target lower_rune range env objects policy caches md calls).calls
  unfolding with_target
  with_target-IsReadOnly policy caches md calls dry idle h =
      let noted = set_condition target_resolved true target_found ∷ calls in
      let known = resolve_credentials objects policy noted in
      let h' = resolve_credentials-IsReadOnly objects policy noted (tt, h) in
      elim (Result-cases known.1) [
        | inr (why, e) ↦ rw (with_target, e) (give_up-IsReadOnly env _ _ policy caches _ h')
        | inl (key, e) ↦
            elim (Result-cases (
              ensure_cache objects policy.uid key policy.spec.dc_identifier
                policy.spec.os_identifier policy.spec.plan_refresh_interval caches)) [
                  | inr (why, e') ↦ rw (with_target, e, e') h'
                  | inl ((caches', source), e') ↦
                      let fresh = freshen objects lower_rune env source known.0 in
                      let h'' = freshen-IsReadOnly objects lower_rune env source known.0 h' in
                      elim (Result-cases fresh.1) [
                        | inr (why, e'') ↦
                            rw (with_target, e, e', e'')
                              (give_up-IsReadOnly env _ _ policy caches' _ h'')
                        | inl (source', e'') ↦
                            rw (with_target, e, e', e'')
                              (with_prices-IsReadOnly policy (insert policy.uid source' caches')
                                source'.cache md fresh.0 dry idle h'')
                      ]
                ]
      ]

  -- In a dry run a whole reconciliation of a policy, with its horizontal scaling, its node pools and its
  -- choice of a plan, makes no call that changes a cluster, whatever fails. Conditions: the policy that
  -- is read asks for a dry run, its status notes no drain and no previous template, and no call before
  -- changed a cluster.
  pub reconcile-IsReadOnly :
      (namespace name : String) (policy : Policy F) (caches : Caches F) (calls : Calls)
      → objects.policy (get_policy namespace name ∷ calls) ≡ found policy
      → policy.spec.dry_run ≡ true
      → IsIdle policy.status
      → All IsReadOnly calls
      → All IsReadOnly (reconcile lower_rune range env objects namespace name caches calls).calls
  unfolding reconcile reconcile_policy
  reconcile-IsReadOnly namespace name policy caches calls read dry idle h =
      let asked =
        get_target (target_namespace policy) (ObjectReference.name policy.spec.target_ref)
        ∷ get_policy namespace name
        ∷ calls in
      elim (Lookup-cases (objects.target asked)) [
        | inl (md, e) ↦
            rw (reconcile, read, reconcile_policy, e)
              (with_target-IsReadOnly policy caches md asked dry idle (tt, (tt, h)))
        | inr (inl (why, e)) ↦
            rw (reconcile, read, reconcile_policy, e)
              (give_up-IsReadOnly env _ _ policy caches asked (tt, (tt, h)))
        | inr (inr (why, e)) ↦ rw (reconcile, read, reconcile_policy, e) (tt, (tt, h))
      ]
