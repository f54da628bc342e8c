-- ===== src/Rebalancer/Justified.antt =====
-- What the rebalancer of internal/controller/rebalancer.go has found when it switches a plan.
use Prim.Native.Char.{Char}
use vpsie_k8s_capi_autoscale.Base.{
  ◌≡◌, refl, some, lookup, ◌⊎◌, inl, inr, true, false, Option, ◌∷◌, All, arith,
}
use vpsie_k8s_capi_autoscale.Float.{Float64, IsOrdered}
use vpsie_k8s_capi_autoscale.Plan.{Plan}
use vpsie_k8s_capi_autoscale.Policy.{ObjectReference}
use vpsie_k8s_capi_autoscale.World.{Calls, Env, MachineDeployment, get_target, found}
use vpsie_k8s_capi_autoscale.Pricing.Cache.{Cache}
use vpsie_k8s_capi_autoscale.Selector.{ScalingDirection}
use vpsie_k8s_capi_autoscale.Utilization.Thresholds.{UtilizationResult}
use vpsie_k8s_capi_autoscale.Horizontal.DryRun.{IsReadOnly}
use vpsie_k8s_capi_autoscale.Controller.{Policy, Objects, PriceSource, Caches}
use vpsie_k8s_capi_autoscale.Controller.Credentials.{target_namespace}
use vpsie_k8s_capi_autoscale.Controller.Choice.{IsBetter, switch_target-IsBetter}
use vpsie_k8s_capi_autoscale.Rebalancer.{rebalance_policy}
use vpsie_k8s_capi_autoscale.Rebalancer.Safety.{IsSwitchCall, IsRead}
use vpsie_k8s_capi_autoscale.Rebalancer.Cases.{
  IsRested, IsSteady, MaySwitch, rebalance_policy-cases,
}

-- A plan was switched for good reasons: it is no dry run, the cooldown has passed, the MachineDeployment
-- that was read has two replicas or more and is not mid-rollout, the prices, the current plan, the
-- direction and the load are those that were read and measured for it, the plan is better by them than
-- the current one, and every call that changes a cluster is of the switch to that plan.
module _ {F K : Type 0} ⦃f : Float64 F⦄ where
  pub record IsJustified (lower_rune : Char → Char) (env : Env) (objects : Objects F K)
      (policy : Policy F) (caches : Caches F) (calls after : Calls) : Type 0 where
    pub asked : Calls
    pub for_target :
        asked
        ≡ get_target (target_namespace policy) (ObjectReference.name policy.spec.target_ref) ∷ calls
    pub md : MachineDeployment
    pub source : PriceSource F
    pub cache : Cache F
    pub current : Option (Plan F)
    pub plan : Plan F
    pub util : Option (UtilizationResult F)
    pub way : ScalingDirection
    pub target : objects.target asked ≡ found md
    pub stored : lookup policy.uid caches ≡ some source
    pub read : IsRead lower_rune env objects policy source md asked cache current util way
    pub wet : policy.spec.dry_run ≡ false
    pub rested : IsRested policy.spec policy.status (env.clock calls)
    pub steady : IsSteady md
    pub better : IsBetter lower_rune policy.spec cache util current way plan
    pub only : All (IsSwitchCall md plan) after

module _ {F K : Type 0} ⦃f : Float64 F⦄ (lower_rune : Char → Char) (env : Env)
    (objects : Objects F K) where
  MaySwitch-IsJustified :
      (laws : IsOrdered F) (policy : Policy F) (caches : Caches F) (calls after : Calls)
      → MaySwitch lower_rune env objects policy caches calls after
      → All IsReadOnly after ⊎ IsJustified lower_rune env objects policy caches calls after
  MaySwitch-IsJustified laws policy caches calls after
        (md, source, target, stored, rested, steady, inl quiet) =
      inl quiet
  MaySwitch-IsJustified laws policy caches calls after
        (
          md,
          source,
          target,
          stored,
          rested,
          steady,
          inr (cache, current, util, way, read, (plan, wet, chosen, only)),
        ) =
      inr (record {
        asked =
            get_target (target_namespace policy) (ObjectReference.name policy.spec.target_ref)
            ∷ calls;
        for_target = refl;
        md = md;
        source = source;
        cache = cache;
        current = current;
        plan = plan;
        util = util;
        way = way;
        target = target;
        stored = stored;
        read = read;
        wet = wet;
        rested = rested;
        steady = steady;
        better =
            switch_target-IsBetter laws lower_rune policy.spec cache util current way plan chosen;
        only = only;
      })

  -- With floats in a strict partial order: the rebalancer either changes no cluster, or it switches a
  -- plan, and then the policy asks for no dry run, the last rebalancing is at least the cooldown ago,
  -- the MachineDeployment that it read has at least two replicas and is not mid-rollout, and the plan
  -- is one of the allowed ones in the policy's cache, refreshed where it was old, eligible for what the
  -- nodes request and for the direction of the scaling, both as measured in this cycle, other than the
  -- current plan, as it was resolved for the MachineDeployment, and saves at
  -- least the percentage that the policy asks for. Its calls then create at most templates for that
  -- plan, in the namespace of the MachineDeployment, and patch nothing but that MachineDeployment.
  -- Condition: no call before changed a cluster.
  pub rebalance_policy-IsJustified :
      (laws : IsOrdered F) (policy : Policy F) (caches : Caches F) (calls : Calls)
      → All IsReadOnly calls
      → let q = rebalance_policy lower_rune env objects policy caches calls in
        All IsReadOnly q.calls ⊎ IsJustified lower_rune env objects policy caches calls q.calls
  rebalance_policy-IsJustified laws policy caches calls h =
      elim (rebalance_policy-cases lower_rune env objects policy caches calls h) [
        | inl quiet ↦ inl quiet
        | inr may ↦ MaySwitch-IsJustified laws policy caches calls _ may
      ]

  -- In a dry run nothing is switched.
  pub rebalance_policy-IsReadOnly :
      (policy : Policy F) (caches : Caches F) (calls : Calls)
      → policy.spec.dry_run ≡ true
      → All IsReadOnly calls
      → All IsReadOnly (rebalance_policy lower_rune env objects policy caches calls).calls
  rebalance_policy-IsReadOnly policy caches calls dry h =
      elim (rebalance_policy-cases lower_rune env objects policy caches calls h) [
        | inl quiet ↦ quiet
        | inr (md, source, target, stored, rested, steady, inl quiet) ↦ quiet
        | inr
              (
                md,
                source,
                target,
                stored,
                rested,
                steady,
                inr (cache, current, util, way, read, (plan, wet, chosen, only)),
              ) ↦
            absurd (ground arith)
      ]
