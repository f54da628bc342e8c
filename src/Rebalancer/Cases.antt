-- ===== src/Rebalancer/Cases.antt =====
-- When `rebalancePolicy` of internal/controller/rebalancer.go comes to switch a plan.
use Prim.Native.Char.{Char}
use mathlib.Core.Path.{subst}
use vpsie_k8s_capi_autoscale.Base.{
  ℤ, pos, ltb_ℤ, ltb_ℤ→le, leb_ℤ→le, eq_of_parts, since, ◌≤ℤ◌, ◌≡◌, sym, ap, refl, ◌⊎◌, inl, inr,
  true, false, Option, none, some, ◌∷◌, All, Bool-cases, Option-cases, lookup, arith,
}
use vpsie_k8s_capi_autoscale.Float.{Float64}
use vpsie_k8s_capi_autoscale.Policy.{ObjectReference, ScalingPolicySpec, ScalingPolicyStatus}
use vpsie_k8s_capi_autoscale.World.{Calls, Env, MachineDeployment, Lookup-cases, get_target, found}
use vpsie_k8s_capi_autoscale.Horizontal.Pass.{current_replicas_of}
use vpsie_k8s_capi_autoscale.Horizontal.DryRun.{IsReadOnly}
use vpsie_k8s_capi_autoscale.Controller.{Policy, Objects, PriceSource, Caches}
use vpsie_k8s_capi_autoscale.Controller.Credentials.{target_namespace}
use vpsie_k8s_capi_autoscale.Rebalancer.{
  update_policy, refrain, rebalance_with, rebalance_deployment, rebalance_policy,
}
use vpsie_k8s_capi_autoscale.Rebalancer.Guards.{
  cooldown_of, is_cooling, replicas_match, min_replicas_for_rebalance,
}
use vpsie_k8s_capi_autoscale.Rebalancer.Safety.{IsQuietOrSwitched, rebalance_with-cases}

replicas_match-eq : (a b : Option ℤ) → replicas_match a b ≡ true → a ≡ b
unfolding replicas_match
replicas_match-eq none none h = refl
replicas_match-eq (some a) none h = absurd (ground arith)
replicas_match-eq none (some b) h = absurd (ground arith)
replicas_match-eq (some a) (some b) h =
    let le = leb_ℤ→le a b (ground arith) in
    let ge = leb_ℤ→le b a (ground arith) in ap some (eq_of_parts a b (omega arith))

-- The last rebalancing is at least the cooldown ago.
abbrev pub IsRested : ScalingPolicySpec → ScalingPolicyStatus → ℤ → Type 0
IsRested spec status time =
    (t : ℤ) → status.last_rebalance_time ≡ some t → cooldown_of spec ≤ℤ since time t

is_cooling-IsRested :
    (spec : ScalingPolicySpec) (status : ScalingPolicyStatus) (time : ℤ)
    → is_cooling spec status time ≡ false
    → IsRested spec status time
unfolding is_cooling
is_cooling-IsRested spec status time h t e =
    ltb_ℤ→le (since time t) (cooldown_of spec) (ground arith)

-- The MachineDeployment has replicas to spare and is at rest.
abbrev pub IsSteady : MachineDeployment → Type 0
IsSteady md = (pos 2 ≤ℤ current_replicas_of md) × (md.up_to_date_replicas ≡ md.status_replicas)

module _ {F K : Type 0} ⦃f : Float64 F⦄ (lower_rune : Char → Char) (env : Env)
    (objects : Objects F K) where
  rebalance_deployment-cases :
      (policy : Policy F) (caches : Caches F) (md : MachineDeployment) (calls : Calls)
      → All IsReadOnly calls
      → let q = rebalance_deployment lower_rune env objects policy caches md calls in
        All IsReadOnly q.calls
        ⊎ (IsSteady md
            × ((source : PriceSource F) × (lookup policy.uid caches ≡ some source)
                × IsQuietOrSwitched lower_rune env objects policy source md calls q.calls))
  unfolding rebalance_deployment refrain update_policy
  rebalance_deployment-cases policy caches md calls h =
      elim (Bool-cases (ltb_ℤ (current_replicas_of md) min_replicas_for_rebalance)) [
        | inl few ↦ inl (ground arith)
        | inr enough ↦
            elim (Bool-cases (replicas_match md.up_to_date_replicas md.status_replicas)) [
              | inr rolling ↦ inl (ground arith)
              | inl at_rest ↦ elim (Option-cases (lookup policy.uid caches)) [
                | inl e ↦ inl (ground arith)
                | inr (source, e) ↦
                    let steady : IsSteady md = (
                      ltb_ℤ→le (current_replicas_of md) (pos 2) enough,
                      replicas_match-eq md.up_to_date_replicas md.status_replicas at_rest,
                    ) in
                    let same : (rebalance_deployment lower_rune env objects policy caches md
                          calls).calls
                        ≡ (rebalance_with lower_rune env objects policy caches source md
                            calls).calls =
                      ground arith in
                    inr (
                      steady,
                      (
                        source,
                        e,
                        subst (IsQuietOrSwitched lower_rune env objects policy source md calls)
                            (sym same)
                            (rebalance_with-cases lower_rune env objects policy caches source md
                              calls h),
                      ),
                    )
              ]
            ]
      ]

-- A target that is there and at rest is switched, after the cooldown.
module _ {F K : Type 0} ⦃f : Float64 F⦄ (lower_rune : Char → Char) (env : Env)
    (objects : Objects F K) where
  abbrev pub MaySwitch : Policy F → Caches F → Calls → Calls → Type 0
  MaySwitch policy caches calls after =
      let asked =
        get_target (target_namespace policy) (ObjectReference.name policy.spec.target_ref)
        ∷ calls in
      (md : MachineDeployment) × (source : PriceSource F) × (objects.target asked ≡ found md)
      × (lookup policy.uid caches ≡ some source)
      × IsRested policy.spec policy.status (env.clock calls)
      × IsSteady md
      × IsQuietOrSwitched lower_rune env objects policy source md asked after

  pub rebalance_policy-cases :
      (policy : Policy F) (caches : Caches F) (calls : Calls)
      → All IsReadOnly calls
      → let q = rebalance_policy lower_rune env objects policy caches calls in
        All IsReadOnly q.calls ⊎ MaySwitch policy caches calls q.calls
  unfolding rebalance_policy
  rebalance_policy-cases policy caches calls h =
      let asked =
        get_target (target_namespace policy) (ObjectReference.name policy.spec.target_ref)
        ∷ calls in
      elim (Bool-cases (is_cooling policy.spec policy.status (env.clock calls))) [
        | inl cooling ↦ inl (ground arith)
        | inr rested ↦ elim (Lookup-cases (objects.target asked)) [
          | inr (inl (why, e)) ↦ inl (ground arith)
          | inr (inr (why, e)) ↦ inl (ground arith)
          | inl (md, e) ↦
              let waited = is_cooling-IsRested policy.spec policy.status (env.clock calls) rested in
              let same : (rebalance_policy lower_rune env objects policy caches calls).calls
                  ≡ (rebalance_deployment lower_rune env objects policy caches md asked).calls =
                ground arith in
              subst (λ l. All IsReadOnly l ⊎ MaySwitch policy caches calls l) (sym same)
                (elim (rebalance_deployment-cases lower_rune env objects policy caches md asked
                  (tt, h)) [
                    | inl quiet ↦ inl quiet
                    | inr (steady, (source, stored, out)) ↦
                        inr (md, source, e, stored, waited, steady, out)
                  ])
        ]
      ]
