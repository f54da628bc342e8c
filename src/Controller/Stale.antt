-- ===== src/Controller/Stale.antt =====
-- How long a pricing cache of internal/controller/scalingpolicy_controller.go is kept.
use Prim.Native.Char.{Char}
use mathlib.Core.Path.{subst}
use vpsie_k8s_capi_autoscale.Base.{
  ◌≡◌, sym, ◌∙◌, refl, inl, inr, String, Option, List, ◌∷◌, Dict, index_string, Result-cases, true,
  arith, string_eq,
}
use vpsie_k8s_capi_autoscale.Float.{Float64}
use vpsie_k8s_capi_autoscale.Plan.{Plan}
use vpsie_k8s_capi_autoscale.Policy.{ObjectReference}
use vpsie_k8s_capi_autoscale.PlanSwitch.{MachineTemplate}
use vpsie_k8s_capi_autoscale.Selector.{ScalingDirection}
use vpsie_k8s_capi_autoscale.Utilization.Thresholds.{UtilizationResult}
use vpsie_k8s_capi_autoscale.Horizontal.Pass.{Pass, now}
use vpsie_k8s_capi_autoscale.Horizontal.Reconcile.{reconcile_horizontal}
use vpsie_k8s_capi_autoscale.Direction.{determine_direction, Decision-cases}
use vpsie_k8s_capi_autoscale.NodePool.Groups.{PlanGroup}
use vpsie_k8s_capi_autoscale.NodePool.Satellite.{cluster_label}
use vpsie_k8s_capi_autoscale.NodePool.Pools.{reconcile_node_pools}
use vpsie_k8s_capi_autoscale.Controller.Credentials.{target_namespace, resolve_credentials}
use vpsie_k8s_capi_autoscale.Controller.Conclude.{write_status, give_up, conclude, with_utilization}
use vpsie_k8s_capi_autoscale.Controller.Reconcile.{
  scale_and_conclude, direct, with_prices, with_target, reconcile_policy, reconcile,
}
use vpsie_k8s_capi_autoscale.World.{
  ConditionType, ConditionReason, MachineDeployment, Lookup-cases, set_condition, target_resolved,
  target_found, get_policy, get_target, Calls, Env,
}
use vpsie_k8s_capi_autoscale.Pricing.Cache.{Cache}
use vpsie_k8s_capi_autoscale.Controller.{Policy, Objects, Caches}
use vpsie_k8s_capi_autoscale.Controller.Prices.{ensure_cache, freshen}
use vpsie_k8s_capi_autoscale.Controller.Bound.{
  IsBound, insert-IsBound, freshen-bound, ensure_cache-IsBound,
}

give_up-caches :
    {F : Type 0} (env : Env) (t : ConditionType) (reason : ConditionReason) (policy : Policy F)
    (caches : Caches F) (calls : Calls)
    → (give_up env t reason policy caches calls).caches ≡ caches
unfolding give_up write_status
give_up-caches env t reason policy caches calls = ground arith

module _ {F K : Type 0} ⦃f : Float64 F⦄ (lower_rune : Char → Char)
    (range : Dict (PlanGroup F) → List (String × PlanGroup F)) (env : Env)
    (objects : Objects F K) where
  conclude-caches :
      (policy : Policy F) (caches : Caches F) (cache : Cache F) (current : Option (Plan F))
      (template : Option (MachineTemplate K)) (util : Option (UtilizationResult F))
      (way : ScalingDirection) (p : Pass)
      → (conclude lower_rune env policy caches cache current template util way p).caches ≡ caches
  unfolding conclude write_status
  conclude-caches policy caches cache current template util way p = ground arith

  scale_and_conclude-caches :
      (policy : Policy F) (caches : Caches F) (cache : Cache F) (current : Option (Plan F))
      (template : Option (MachineTemplate K)) (util : Option (UtilizationResult F))
      (way : ScalingDirection) (cluster_name : String) (p : Pass)
      → (scale_and_conclude lower_rune range env objects policy caches cache current template util
          way cluster_name p).caches
        ≡ caches
  unfolding scale_and_conclude
  scale_and_conclude-caches policy caches cache current template util way cluster_name p =
      let scaled = (reconcile_horizontal env policy.spec cluster_name util current p).0 in
      let pooled =
        (reconcile_node_pools lower_rune range env policy.spec cache cluster_name current template
          scaled).0 in
      let last = conclude-caches policy caches cache current template util way pooled in
      ground arith

  direct-caches :
      (policy : Policy F) (caches : Caches F) (cache : Cache F) (current : Option (Plan F))
      (template : Option (MachineTemplate K)) (p : Pass)
      → (direct lower_rune range env objects policy caches cache current template p).caches ≡ caches
  unfolding direct
  direct-caches policy caches cache current template p =
      let cluster_name = index_string cluster_label p.deployment.labels in
      let directed = determine_direction env policy.spec current cluster_name p in
      elim (Decision-cases directed.1) [
        | inl e ↦ rw (direct, e) refl
        | inr (way, util, e) ↦
            rw (direct, e)
              (scale_and_conclude-caches
                (record policy {
                  report = with_utilization util (now env directed.0) policy.report;
                })
                caches cache current template util way cluster_name directed.0)
      ]

  with_target-IsBound :
      (uid key dc os : String) (policy : Policy F) (caches : Caches F) (md : MachineDeployment)
      (calls : Calls)
      → IsBound uid key dc os caches
      → IsBound uid key dc os
          (with_target lower_rune range env objects policy caches md calls).caches
  unfolding with_target with_prices
  with_target-IsBound uid key dc os policy caches md calls h =
      let B = IsBound uid key dc os in
      let known =
        resolve_credentials objects policy
          (set_condition target_resolved true target_found ∷ calls) in
      elim (Result-cases known.1) [
        | inr (why, e) ↦
            rw (with_target, e) (subst B (sym (give_up-caches env _ _ policy caches _)) h)
        | inl (api_key, e) ↦
            elim (Result-cases (
              ensure_cache objects policy.uid api_key policy.spec.dc_identifier
                policy.spec.os_identifier policy.spec.plan_refresh_interval caches)) [
                  | inr (why, e') ↦ rw (with_target, e, e') h
                  | inl ((caches', source), e') ↦
                      let (h', fits) =
                        ensure_cache-IsBound objects uid key dc os policy.uid api_key _ _ _ caches
                          caches' source h e' in
                      let fresh = freshen objects lower_rune env source known.0 in
                      elim (Result-cases fresh.1) [
                        | inr (why, e'') ↦
                            rw (with_target, e, e', e'')
                              (subst B (sym (give_up-caches env _ _ policy caches' _)) h')
                        | inl (source', e'') ↦
                            rw (with_target, e, e', e'')
                              (subst B (sym (direct-caches _ _ _ _ _ _)) (
                                insert-IsBound uid key dc os policy.uid caches' source' h' (λ eq.
                                  let (a, b, c) =
                                    freshen-bound objects lower_rune env source source' known.0
                                      e'' in
                                  let (i, j, k) = fits eq in (a ∙ i, b ∙ j, c ∙ k))))
                      ]
                ]
      ]

  -- Once there is a pricing cache for a policy, it stays with the VPSie key, the data centre and the
  -- image that it was made for: a reconciliation of that policy, or of any other, keeps them, whatever
  -- the policy that is read says of them now, and whatever fails.
  pub reconcile-IsBound :
      (uid key dc os : String) (namespace name : String) (caches : Caches F) (calls : Calls)
      → IsBound uid key dc os caches
      → IsBound uid key dc os
          (reconcile lower_rune range env objects namespace name caches calls).caches
  unfolding reconcile reconcile_policy
  reconcile-IsBound uid key dc os namespace name caches calls h =
      let read = get_policy namespace name ∷ calls in
      elim (Lookup-cases (objects.policy read)) [
        | inr (inl (why, e)) ↦ rw (reconcile, e) h
        | inr (inr (why, e)) ↦ rw (reconcile, e) h
        | inl (policy, e) ↦
            let asked =
              get_target (target_namespace policy) (ObjectReference.name policy.spec.target_ref)
              ∷ read in
            elim (Lookup-cases (objects.target asked)) [
              | inl (md, e') ↦
                  rw (reconcile, e, reconcile_policy, e')
                    (with_target-IsBound uid key dc os policy caches md asked h)
              | inr (inl (why, e')) ↦
                  rw (reconcile, e, reconcile_policy, e')
                    (subst (IsBound uid key dc os)
                      (sym (give_up-caches env _ _ policy caches asked)) h)
              | inr (inr (why, e')) ↦ rw (reconcile, e, reconcile_policy, e') h
            ]
      ]
