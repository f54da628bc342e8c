-- ===== src/Rebalancer/Safety.antt =====
-- When the rebalancer of internal/controller/rebalancer.go switches a plan.
use Prim.Native.Char.{Char}
use mathlib.Core.Path.{subst}
use vpsie_k8s_capi_autoscale.Base.{
  ◌≡◌, sym, refl, ap, ok, Result, ◌⊎◌, inl, inr, false, Option, none, some, All, All-map,
  Bool-cases, Option-cases, Result-cases, insert, arith, index_string,
}
use vpsie_k8s_capi_autoscale.Float.{Float64}
use vpsie_k8s_capi_autoscale.Plan.{Plan}
use vpsie_k8s_capi_autoscale.World.{
  Call, Calls, Env, MachineDeployment, create_template, patch_infrastructure,
}
use vpsie_k8s_capi_autoscale.Pricing.Cache.{Cache}
use vpsie_k8s_capi_autoscale.PlanSwitch.{
  MachineTemplate, new_template, provide, point_to, switch_plan,
}
use vpsie_k8s_capi_autoscale.Selector.{ScalingDirection}
use vpsie_k8s_capi_autoscale.Utilization.Thresholds.{UtilizationResult}
use vpsie_k8s_capi_autoscale.Horizontal.Pass.{Pass, now}
use vpsie_k8s_capi_autoscale.Horizontal.DryRun.{IsReadOnly}
use vpsie_k8s_capi_autoscale.Direction.{decided, determine_direction, Decision-cases}
use vpsie_k8s_capi_autoscale.Direction.Verdict.{determine_direction-Untouched}
use vpsie_k8s_capi_autoscale.NodePool.Satellite.{cluster_label}
use vpsie_k8s_capi_autoscale.Controller.{Policy, Objects, PriceSource, Caches}
use vpsie_k8s_capi_autoscale.Controller.Prices.{
  freshen, resolve_current_plan, choose_plan, switch_target,
}
use vpsie_k8s_capi_autoscale.Controller.Reads.{freshen-IsReadOnly, resolve_current_plan-IsReadOnly}
use vpsie_k8s_capi_autoscale.Controller.Conclude.{with_utilization}
use vpsie_k8s_capi_autoscale.Rebalancer.{
  update_policy, refrain, perform_switch, choose_and_switch, direct_rebalance, rebalance_with,
}

-- The call changes no cluster, or creates a template for the plan, or points the MachineDeployment to
-- another template.
abbrev pub IsSwitchCall : {F : Type 0} → MachineDeployment → Plan F → Call → Type 0
IsSwitchCall md plan (create_template namespace _ identifier) =
    (namespace ≡ MachineDeployment.namespace md) × (identifier ≡ Plan.identifier plan)
IsSwitchCall md plan (patch_infrastructure name _) = name ≡ MachineDeployment.name md
IsSwitchCall md plan c = IsReadOnly c

module _ {F K : Type 0} (lower_rune : Char → Char) where
  switch_plan-IsSwitchCall :
      (env : Env) (plan : Plan F) (template : Option (MachineTemplate K)) (p : Pass)
      → All (IsSwitchCall p.deployment plan) p.calls
      → All (IsSwitchCall p.deployment plan) (switch_plan lower_rune env plan template p).0.calls
  unfolding switch_plan provide point_to new_template
  switch_plan-IsSwitchCall env plan none p h = h
  switch_plan-IsSwitchCall env plan (some t) p h = ground arith

IsReadOnly-IsSwitchCall :
    {F : Type 0} (md : MachineDeployment) (plan : Plan F) (c : Call)
    → IsReadOnly c
    → IsSwitchCall md plan c
IsReadOnly-IsSwitchCall md plan c h = ground arith

module _ {F : Type 0} ⦃f : Float64 F⦄ where
  -- A plan was chosen, it is no dry run, and all calls that change a cluster are of the switch to it.
  abbrev pub IsSwitched :
      (Char → Char)
      → Policy F
      → MachineDeployment
      → Cache F
      → Option (Plan F)
      → Option (UtilizationResult F)
      → ScalingDirection
      → Calls
      → Type 0
  IsSwitched lower_rune policy md cache current util way calls =
      (plan : Plan F) × (policy.spec.dry_run ≡ false)
      × (switch_target policy.spec current
            (choose_plan lower_rune policy.spec cache util current way)
          ≡ some plan)
      × All (IsSwitchCall md plan) calls

module _ {F : Type 0} ⦃f : Float64 F⦄ (lower_rune : Char → Char) (env : Env) where
  -- A plan is switched by the direction and the load that were measured in the pass.
  abbrev IsDirected : Policy F → Cache F → Option (Plan F) → Pass → Calls → Type 0
  IsDirected policy cache current p calls =
      (util : Option (UtilizationResult F)) × (way : ScalingDirection) × ((determine_direction env
          policy.spec current (index_string cluster_label p.deployment.labels) p).1
        ≡ decided way util)
      × IsSwitched lower_rune policy p.deployment cache current util way calls

module _ {F K : Type 0} ⦃f : Float64 F⦄ (lower_rune : Char → Char) (env : Env) where
  perform_switch-IsSwitchCall :
      (policy : Policy F) (caches : Caches F) (plan : Plan F)
      (template : Option (MachineTemplate K)) (p : Pass)
      → All IsReadOnly p.calls
      → All
          (IsSwitchCall p.deployment plan)
          (perform_switch lower_rune env policy caches plan template p).calls
  unfolding perform_switch update_policy refrain
  perform_switch-IsSwitchCall policy caches plan template p h =
      let switched =
        switch_plan-IsSwitchCall lower_rune env plan template p
          (All-map (IsReadOnly-IsSwitchCall p.deployment plan) p.calls h) in
      ground arith

  choose_and_switch-cases :
      (policy : Policy F) (caches : Caches F) (cache : Cache F) (current : Option (Plan F))
      (template : Option (MachineTemplate K)) (util : Option (UtilizationResult F))
      (way : ScalingDirection) (p : Pass)
      → All IsReadOnly p.calls
      → let q = choose_and_switch lower_rune env policy caches cache current template util way p in
        All IsReadOnly q.calls
        ⊎ IsSwitched lower_rune policy p.deployment cache current util way q.calls
  unfolding choose_and_switch refrain update_policy
  choose_and_switch-cases policy caches cache current template util way p h =
      let target =
        switch_target policy.spec current
          (choose_plan lower_rune policy.spec cache util current way) in
      elim (Option-cases target) [
        | inl e ↦ inl (ground arith)
        | inr (plan, e) ↦ elim (Bool-cases policy.spec.dry_run) [
          | inl dry ↦ inl (ground arith)
          | inr wet ↦
              let noted : Policy F = record policy {
                status = p.status;
                report = with_utilization util (now env p) policy.report;
              } in
              let same : (choose_and_switch lower_rune env policy caches cache current template util
                    way p).calls
                  ≡ (perform_switch lower_rune env noted caches plan template p).calls =
                ground arith in
              inr (
                plan,
                wet,
                e,
                subst (λ l. All (IsSwitchCall p.deployment plan) l) (sym same)
                    (perform_switch-IsSwitchCall noted caches plan template p h),
              )
        ]
      ]

  direct_rebalance-cases :
      (policy : Policy F) (caches : Caches F) (cache : Cache F) (current : Option (Plan F))
      (template : Option (MachineTemplate K)) (p : Pass)
      → All IsReadOnly p.calls
      → let q = direct_rebalance lower_rune env policy caches cache current template p in
        All IsReadOnly q.calls ⊎ IsDirected lower_rune env policy cache current p q.calls
  unfolding direct_rebalance
  direct_rebalance-cases policy caches cache current template p h =
      let cluster_name = index_string cluster_label p.deployment.labels in
      let directed = determine_direction env policy.spec current cluster_name p in
      let (asked, same, _) =
        determine_direction-Untouched env policy.spec current cluster_name p h in
      elim (Decision-cases directed.1) [
        | inl e ↦ rw (direct_rebalance, e) (inl asked)
        | inr (way, util, e) ↦
            let out =
              choose_and_switch lower_rune env policy caches cache current template util way
                directed.0 in
            let reached : (direct_rebalance lower_rune env policy caches cache current template
                  p).calls
                ≡ out.calls =
              rw (direct_rebalance, e) refl in
            subst (λ l. All IsReadOnly l ⊎ IsDirected lower_rune env policy cache current p l)
              (sym reached)
              (elim (choose_and_switch-cases policy caches cache current template util way
                directed.0 asked) [
                  | inl quiet ↦ inl quiet
                  | inr switched ↦ inr (
                    util,
                    way,
                    e,
                    subst (λ md. IsSwitched lower_rune policy md cache current util way out.calls)
                        same switched,
                  )
                ])
      ]

-- What a policy is rebalanced by: the prices of its cache, refreshed where they are old, the current plan
-- of the MachineDeployment among them, and the direction and the load that were measured.
module _ {F K : Type 0} ⦃f : Float64 F⦄ (lower_rune : Char → Char) (env : Env)
    (objects : Objects F K) where
  pub record IsRead (policy : Policy F) (source : PriceSource F) (md : MachineDeployment)
      (calls : Calls) (cache : Cache F) (current : Option (Plan F))
      (util : Option (UtilizationResult F)) (way : ScalingDirection) : Type 0 where
    pub priced : Calls
    pub fresh : PriceSource F
    pub prices : freshen objects lower_rune env source calls ≡ (priced, ok fresh)
    pub of_fresh : fresh.cache ≡ cache
    pub resolved :
        ((resolve_current_plan objects md cache priced).1 ≡ current)
        × ((resolve_current_plan objects md cache priced).3 ≡ none)
    pub measured :
        (determine_direction env policy.spec current
          (index_string cluster_label md.labels)
          (record {
            status = policy.status;
            deployment = md;
            calls = (resolve_current_plan objects md cache priced).0;
          })).1
        ≡ decided way util

  -- The calls change nothing, or they switch a plan by what was read.
  abbrev pub IsQuietOrSwitched :
      Policy F → PriceSource F → MachineDeployment → Calls → Calls → Type 0
  IsQuietOrSwitched policy source md calls after =
      All IsReadOnly after
      ⊎ ((cache : Cache F) × (current : Option (Plan F)) × (util : Option (UtilizationResult F))
          × (way : ScalingDirection) × IsRead policy source md calls cache current util way
          × IsSwitched lower_rune policy md cache current util way after)

  pub rebalance_with-cases :
      (policy : Policy F) (caches : Caches F) (source : PriceSource F) (md : MachineDeployment)
      (calls : Calls)
      → All IsReadOnly calls
      → IsQuietOrSwitched policy source md calls
          (rebalance_with lower_rune env objects policy caches source md calls).calls
  unfolding rebalance_with
  rebalance_with-cases policy caches source md calls h =
      let read = freshen objects lower_rune env source calls in
      let h' = freshen-IsReadOnly objects lower_rune env source calls h in
      elim (Result-cases read.1) [
        | inr (why, e) ↦ inl (rw (rebalance_with, e) h')
        | inl (source', e) ↦
            let resolved = resolve_current_plan objects md source'.cache read.0 in
            let h'' = resolve_current_plan-IsReadOnly objects md source'.cache read.0 h' in
            elim (Option-cases resolved.3) [
              | inr (why, e') ↦ inl (rw (rebalance_with, e, e') h'')
              | inl e' ↦
                  let kept = insert policy.uid source' caches in
                  let p : Pass = record {
                    status = policy.status;
                    deployment = md;
                    calls = resolved.0;
                  } in
                  let same : (rebalance_with lower_rune env objects policy caches source md
                        calls).calls
                      ≡ (direct_rebalance lower_rune env policy kept source'.cache resolved.1
                          resolved.2 p).calls =
                    rw (rebalance_with, e, e') refl in
                  subst (IsQuietOrSwitched policy source md calls) (sym same)
                    (elim (direct_rebalance-cases lower_rune env policy kept source'.cache
                      resolved.1 resolved.2 p h'') [
                        | inl quiet ↦ inl quiet
                        | inr (util, way, measured, switched) ↦ inr (
                          source'.cache,
                          resolved.1,
                          util,
                          way,
                          record {
                            priced = read.0;
                            fresh = source';
                            prices = ap (λ (r : Result (PriceSource F)). (read.0, r)) e;
                            of_fresh = refl;
                            resolved = (refl, e');
                            measured = measured;
                          },
                          switched,
                        )
                      ])
            ]
      ]
