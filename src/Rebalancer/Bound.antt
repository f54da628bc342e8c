-- ===== src/Rebalancer/Bound.antt =====
-- The pricing caches along a cycle of internal/controller/rebalancer.go.
use Prim.Native.Char.{Char}
use mathlib.Core.Path.{subst}
use vpsie_k8s_capi_autoscale.Base.{
  ltb_ℤ, ◌≡◌, sym, refl, ◌∙◌, inl, inr, String, Option, some, List, [], ◌∷◌, Bool-cases, cond_cases,
  Option-cases, Result-cases, lookup, index_string, arith,
}
use vpsie_k8s_capi_autoscale.Float.{Float64}
use vpsie_k8s_capi_autoscale.Plan.{Plan}
use vpsie_k8s_capi_autoscale.Policy.{ObjectReference}
use vpsie_k8s_capi_autoscale.PlanSwitch.{MachineTemplate}
use vpsie_k8s_capi_autoscale.Selector.{ScalingDirection}
use vpsie_k8s_capi_autoscale.Utilization.Thresholds.{UtilizationResult}
use vpsie_k8s_capi_autoscale.World.{
  Calls, Env, ConditionReason, MachineDeployment, Lookup-cases, get_target, list_policies,
}
use vpsie_k8s_capi_autoscale.Horizontal.Pass.{Pass, current_replicas_of, Exit, exit_cases}
use vpsie_k8s_capi_autoscale.Direction.{determine_direction, Decision-cases}
use vpsie_k8s_capi_autoscale.NodePool.Satellite.{cluster_label}
use vpsie_k8s_capi_autoscale.Pricing.Cache.{Cache}
use vpsie_k8s_capi_autoscale.Controller.{Policy, Objects, PriceSource, Caches}
use vpsie_k8s_capi_autoscale.Controller.Credentials.{target_namespace}
use vpsie_k8s_capi_autoscale.Controller.Prices.{freshen, resolve_current_plan}
use vpsie_k8s_capi_autoscale.Controller.Bound.{IsFor, IsBound, insert-IsBound, freshen-bound}
use vpsie_k8s_capi_autoscale.Rebalancer.{
  update_policy, refrain, perform_switch, choose_and_switch, direct_rebalance, rebalance_with,
  rebalance_deployment, rebalance_policy,
}
use vpsie_k8s_capi_autoscale.Rebalancer.Guards.{
  is_cooling, replicas_match, min_replicas_for_rebalance,
}
use vpsie_k8s_capi_autoscale.Rebalancer.Cycle.{rebalance_policies, run_cycle}

refrain-caches :
    {F : Type 0} (env : Env) (reason : ConditionReason) (policy : Policy F) (caches : Caches F)
    (calls : Calls)
    → (refrain env reason policy caches calls).caches ≡ caches
unfolding refrain update_policy
refrain-caches env reason policy caches calls = ground arith

module _ {F K : Type 0} ⦃f : Float64 F⦄ (lower_rune : Char → Char) (env : Env) where
  choose_and_switch-caches :
      (policy : Policy F) (caches : Caches F) (cache : Cache F) (current : Option (Plan F))
      (template : Option (MachineTemplate K)) (util : Option (UtilizationResult F))
      (way : ScalingDirection) (p : Pass)
      → (choose_and_switch lower_rune env policy caches cache current template util way p).caches
        ≡ caches
  unfolding choose_and_switch perform_switch refrain update_policy
  choose_and_switch-caches policy caches cache current template util way p = ground arith

  direct_rebalance-caches :
      (policy : Policy F) (caches : Caches F) (cache : Cache F) (current : Option (Plan F))
      (template : Option (MachineTemplate K)) (p : Pass)
      → (direct_rebalance lower_rune env policy caches cache current template p).caches ≡ caches
  unfolding direct_rebalance
  direct_rebalance-caches policy caches cache current template p =
      let cluster_name = index_string cluster_label p.deployment.labels in
      let directed = determine_direction env policy.spec current cluster_name p in
      elim (Decision-cases directed.1) [
        | inl e ↦ rw (direct_rebalance, e) refl
        | inr (way, util, e) ↦
            rw (direct_rebalance, e)
              (choose_and_switch-caches policy caches cache current template util way directed.0)
      ]

module _ {F K : Type 0} ⦃f : Float64 F⦄ (lower_rune : Char → Char) (env : Env)
    (objects : Objects F K) (uid key dc os : String) where
  rebalance_with-IsBound :
      (policy : Policy F) (caches : Caches F) (source : PriceSource F) (md : MachineDeployment)
      (calls : Calls)
      → IsBound uid key dc os caches
      → (uid ≡ policy.uid → IsFor key dc os source)
      → IsBound uid key dc os
          (rebalance_with lower_rune env objects policy caches source md calls).caches
  unfolding rebalance_with
  rebalance_with-IsBound policy caches source md calls h fits =
      let fresh = freshen objects lower_rune env source calls in
      elim (Result-cases fresh.1) [
        | inr (why, e) ↦ rw (rebalance_with, e) h
        | inl (source', e) ↦
            let kept : uid ≡ policy.uid → IsFor key dc os source' = λ eq.
              let (a, b, c) = freshen-bound objects lower_rune env source source' calls e in
              let (i, j, k) = fits eq in (a ∙ i, b ∙ j, c ∙ k) in
            let h' = insert-IsBound uid key dc os policy.uid caches source' h kept in
            let resolved = resolve_current_plan objects md source'.cache fresh.0 in
            elim (Option-cases resolved.3) [
              | inr (why, e') ↦ rw (rebalance_with, e, e') h'
              | inl e' ↦
                  rw (rebalance_with, e, e')
                    (subst (IsBound uid key dc os)
                      (sym (direct_rebalance-caches lower_rune env policy _ _ _ _ _)) h')
            ]
      ]

  -- The source that is found for the policy is the one that is bound.
  found-IsFor :
      (j : String) (caches : Caches F) (source : PriceSource F)
      → IsBound uid key dc os caches
      → lookup j caches ≡ some source
      → uid ≡ j
      → IsFor key dc os source
  found-IsFor j caches source (bound, known, fits) u eq =
      let found_by : lookup uid caches ≡ some source = rw eq u in
      let twice : bound ≡ source = ground arith in subst (IsFor key dc os) twice fits

  rebalance_deployment-IsBound :
      (policy : Policy F) (caches : Caches F) (md : MachineDeployment) (calls : Calls)
      → IsBound uid key dc os caches
      → IsBound uid key dc os
          (rebalance_deployment lower_rune env objects policy caches md calls).caches
  unfolding rebalance_deployment
  rebalance_deployment-IsBound policy caches md calls h =
      let few = ltb_ℤ (current_replicas_of md) min_replicas_for_rebalance in
      let at_rest = replicas_match md.up_to_date_replicas md.status_replicas in
      let B = IsBound uid key dc os in
      elim (Bool-cases few) [
        | inl e ↦
            rw (rebalance_deployment, e) (subst B (sym (refrain-caches env _ policy caches _)) h)
        | inr e ↦ elim (Bool-cases at_rest) [
          | inr e' ↦
              rw (rebalance_deployment, e, e')
                (subst B (sym (refrain-caches env _ policy caches _)) h)
          | inl e' ↦ elim (Option-cases (lookup policy.uid caches)) [
            | inl e'' ↦ rw (rebalance_deployment, e, e', e'') h
            | inr (source, e'') ↦
                rw (rebalance_deployment, e, e', e'')
                  (rebalance_with-IsBound policy caches source md calls h
                    (found-IsFor policy.uid caches source h e''))
          ]
        ]
      ]

  rebalance_policy-IsBound :
      (policy : Policy F) (caches : Caches F) (calls : Calls)
      → IsBound uid key dc os caches
      → IsBound uid key dc os (rebalance_policy lower_rune env objects policy caches calls).caches
  unfolding rebalance_policy
  rebalance_policy-IsBound policy caches calls h =
      let asked =
        get_target (target_namespace policy) (ObjectReference.name policy.spec.target_ref)
        ∷ calls in
      elim (Bool-cases (is_cooling policy.spec policy.status (env.clock calls))) [
        | inl c ↦ rw (rebalance_policy, c) h
        | inr c ↦ elim (Lookup-cases (objects.target asked)) [
          | inl (md, e) ↦
              rw (rebalance_policy, c, e) (rebalance_deployment-IsBound policy caches md asked h)
          | inr (inl (why, e)) ↦ rw (rebalance_policy, c, e) h
          | inr (inr (why, e)) ↦ rw (rebalance_policy, c, e) h
        ]
      ]

  rebalance_policies-IsBound :
      (policies : List (Policy F)) (caches : Caches F) (calls : Calls)
      → IsBound uid key dc os caches
      → IsBound uid key dc os (rebalance_policies lower_rune env objects policies caches calls).0
  unfolding rebalance_policies
  rebalance_policies-IsBound [] caches calls h = h
  rebalance_policies-IsBound (policy ∷ policies) caches calls h =
      let h' = rebalance_policy-IsBound policy caches calls h in
      let skipped = rebalance_policies-IsBound policies caches calls h in
      let r = rebalance_policy lower_rune env objects policy caches calls in
      let rest = rebalance_policies-IsBound policies r.caches r.calls h' in
      let B : Caches F × Calls × Exit → Type 0 = λ q. IsBound uid key dc os q.0 in
      cond_cases B policy.spec.rebalancing.enabled (exit_cases B r.exit h' rest) skipped

  pub run_cycle-IsBound :
      (caches : Caches F) (calls : Calls)
      → IsBound uid key dc os caches
      → IsBound uid key dc os (run_cycle lower_rune env objects caches calls).0
  unfolding run_cycle
  run_cycle-IsBound caches calls h =
      elim (Result-cases (objects.policies (list_policies "" ∷ calls))) [
        | inr (why, e) ↦ rw (run_cycle, e) h
        | inl (policies, e) ↦ rw (run_cycle, e) (rebalance_policies-IsBound policies caches _ h)
      ]
