-- ===== src/Selector/Savings.antt =====
-- On the savings that `Select` of internal/selector/selector.go returns.
use vpsie_k8s_capi_autoscale.Base.{
  ℤ, ◌≡◌, ◌≢◌, inl, inr, String, some, List, ==_ne, Option-cases, arith, string_eq,
}
use vpsie_k8s_capi_autoscale.Float.{Float64}
use vpsie_k8s_capi_autoscale.Plan.{Plan}
use vpsie_k8s_capi_autoscale.Policy.{ResourceConstraints}
use vpsie_k8s_capi_autoscale.Pricing.Scorer.{weights_for_aggressiveness, savings_percent}
use vpsie_k8s_capi_autoscale.Selector.{ScalingDirection, Requirements, scan_plans, no_best, select}

module _ {F : Type 0} ⦃f : Float64 F⦄ where
  pub select-savings :
      (plans : List (Plan F)) (c : ResourceConstraints) (r : Requirements) (id : String) (price : F)
      (aggressiveness : String) (min_savings : ℤ) (way : ScalingDirection) (p : Plan F)
      → (select plans c r id price aggressiveness min_savings way).plan ≡ some p
      → p.identifier ≢ id
      → (select plans c r id price aggressiveness min_savings way).savings_percent
        ≡ savings_percent price p.price_monthly
  unfolding select
  select-savings plans c r id price aggressiveness min_savings way p h other =
      let best = scan_plans c r way (weights_for_aggressiveness aggressiveness) plans no_best in
      elim (Option-cases best.plan) [
        | inl e ↦ absurd (ground arith)
        | inr (q, e) ↦
            let same : q ≡ p = ground arith in
            let differs = ==_ne p.identifier id other in ground arith
      ]
