-- ===== src/Controller/Choice.antt =====
-- On the plan to which `Reconcile` (internal/controller/scalingpolicy_controller.go) and the rebalancer
-- (internal/controller/rebalancer.go) switch.
use Prim.Native.Char.{Char}
use mathlib.Core.List.{Mem}
use vpsie_k8s_capi_autoscale.Base.{
  ◌≡◌, ◌≢◌, inl, inr, true, false, Option, some, ==_false, Option-cases, arith, ◌==◌, string_eq,
}
use vpsie_k8s_capi_autoscale.Float.{Float64, IsOrdered}
use vpsie_k8s_capi_autoscale.Plan.{Plan}
use vpsie_k8s_capi_autoscale.Policy.{ScalingPolicySpec}
use vpsie_k8s_capi_autoscale.Pricing.Cache.{Cache, plans_of}
use vpsie_k8s_capi_autoscale.Pricing.Scorer.{savings_percent}
use vpsie_k8s_capi_autoscale.Selector.{ScalingDirection, SelectionResult}
use vpsie_k8s_capi_autoscale.Selector.Eligible.{IsEligible}
use vpsie_k8s_capi_autoscale.Selector.Choice.{select-IsEligible}
use vpsie_k8s_capi_autoscale.Selector.Savings.{select-savings}
use vpsie_k8s_capi_autoscale.Utilization.Thresholds.{UtilizationResult}
use vpsie_k8s_capi_autoscale.Controller.Prices.{
  requirements_of, min_savings_of, identifier_of, price_of, choose_plan, switch_target,
}

module _ {F : Type 0} ⦃f : Float64 F⦄ where
  -- The plan is offered and eligible, is not the current one, and saves what the policy asks for.
  pub record IsBetter (lower_rune : Char → Char) (spec : ScalingPolicySpec) (cache : Cache F)
      (util : Option (UtilizationResult F)) (current : Option (Plan F)) (way : ScalingDirection)
      (p : Plan F) : Type 0 where
    pub offered : Mem p (plans_of lower_rune cache spec.allowed_categories)
    pub eligible : IsEligible spec.constraints (requirements_of spec.constraints util current) way p
    pub other : p.identifier ≢ identifier_of current
    pub saves :
        f.le (f.of_int (min_savings_of spec)) (savings_percent (price_of current) p.price_monthly)
        ≡ true

  switch_target-chosen :
      (spec : ScalingPolicySpec) (current : Option (Plan F)) (r : SelectionResult F) (p : Plan F)
      → switch_target spec current r ≡ some p
      → (r.plan ≡ some p)
        × (p.identifier ≢ identifier_of current)
        × (f.le (f.of_int (min_savings_of spec)) r.savings_percent ≡ true)
  unfolding switch_target
  switch_target-chosen spec current r p h = elim (Option-cases r.plan) [
    | inl e ↦ absurd (ground arith)
    | inr (q, e) ↦
        let same : q ≡ p = ground arith in
        let differs : (p.identifier == identifier_of current) ≡ false = ground arith in
        (ground arith, ==_false p.identifier (identifier_of current) differs, ground arith)
  ]

  pub switch_target-IsBetter :
      (laws : IsOrdered F) (lower_rune : Char → Char) (spec : ScalingPolicySpec) (cache : Cache F)
      (util : Option (UtilizationResult F)) (current : Option (Plan F)) (way : ScalingDirection)
      (p : Plan F)
      → switch_target spec current (choose_plan lower_rune spec cache util current way) ≡ some p
      → IsBetter lower_rune spec cache util current way p
  unfolding choose_plan
  switch_target-IsBetter laws lower_rune spec cache util current way p h =
      let plans = plans_of lower_rune cache spec.allowed_categories in
      let needs = requirements_of spec.constraints util current in
      let (chosen, other, saves) =
        switch_target-chosen spec current (choose_plan lower_rune spec cache util current way) p
          h in
      let (offered, eligible, _, _) =
        select-IsEligible laws plans spec.constraints needs (identifier_of current)
          (price_of current) spec.aggressiveness (min_savings_of spec) way p chosen in
      let exact =
        select-savings plans spec.constraints needs (identifier_of current) (price_of current)
          spec.aggressiveness (min_savings_of spec) way p chosen other in
      record { offered = offered; eligible = eligible; other = other; saves = rw⁻¹ exact saves }
