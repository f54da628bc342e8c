-- ===== src/Selector/Choice.antt =====
-- On the result of `Select` of internal/selector/selector.go, from the loop over the plans.
use mathlib.Core.Path.{subst}
use mathlib.Core.List.{Mem}
use vpsie_k8s_capi_autoscale.Base.{
  ℤ, ◌≡◌, ◌∙◌, sym, inl, inr, true, false, String, some, List, length, keep, All, All-keep_if,
  arith, string_eq,
}
use vpsie_k8s_capi_autoscale.Float.{Float64, IsOrdered, nought}
use vpsie_k8s_capi_autoscale.Plan.{Plan}
use vpsie_k8s_capi_autoscale.Policy.{ResourceConstraints}
use vpsie_k8s_capi_autoscale.Pricing.Scorer.{weights_for_aggressiveness, score_plan}
use vpsie_k8s_capi_autoscale.Selector.{
  ScalingDirection, Requirements, Best, is_candidate, scan_plans, no_best, select,
}
use vpsie_k8s_capi_autoscale.Selector.Eligible.{IsEligible, is_candidate-IsEligible}
use vpsie_k8s_capi_autoscale.Selector.Scan.{
  scan_plans-IsFrom, scan_plans-best, scan_plans-candidates, IsFrom, score_of,
}

module _ {F : Type 0} ⦃f : Float64 F⦄ where
  abbrev best_of :
      List (Plan F) → ResourceConstraints → Requirements → String → ScalingDirection → Best F
  best_of plans c r aggressiveness way =
      scan_plans c r way (weights_for_aggressiveness aggressiveness) plans no_best

  select-plan :
      (plans : List (Plan F)) (c : ResourceConstraints) (r : Requirements) (id : String) (price : F)
      (aggressiveness : String) (m : ℤ) (way : ScalingDirection)
      → (select plans c r id price aggressiveness m way).plan
        ≡ (best_of plans c r aggressiveness way).plan
  unfolding select
  select-plan plans c r id price aggressiveness m way = ground arith

  select-score :
      (laws : IsOrdered F) (plans : List (Plan F)) (c : ResourceConstraints) (r : Requirements)
      (id : String) (price : F) (aggressiveness : String) (m : ℤ) (way : ScalingDirection)
      → (select plans c r id price aggressiveness m way).score
        ≡ (best_of plans c r aggressiveness way).score
  unfolding select
  select-score laws plans c r id price aggressiveness m way =
      let from : IsFrom c r way (weights_for_aggressiveness aggressiveness) plans no_best
          (best_of plans c r aggressiveness way) =
        scan_plans-IsFrom c r way (weights_for_aggressiveness aggressiveness) laws plans no_best in
      elim from [
        | inl (plan, score) ↦ ground arith
        | inr (q, plan, found, candidate, score, better) ↦ ground arith
      ]

  -- With floats in a strict partial order: the plan that `select` returns is one of the offered
  -- plans; it is eligible (within the policy's boundaries, large enough for the request, not
  -- excluded, and larger or smaller than the current plan as the direction asks); the returned score
  -- is the plan's own score, and it is greater than nought.
  pub select-IsEligible :
      (laws : IsOrdered F) (plans : List (Plan F)) (c : ResourceConstraints) (r : Requirements)
      (id : String) (price : F) (aggressiveness : String) (min_savings : ℤ) (way : ScalingDirection)
      (p : Plan F)
      → (select plans c r id price aggressiveness min_savings way).plan ≡ some p
      → Mem p plans
        × IsEligible c r way p
        × ((select plans c r id price aggressiveness min_savings way).score
            ≡ score_plan p r.required_cpu_millis r.required_ram_mb
                (weights_for_aggressiveness aggressiveness))
        × (f.lt nought (select plans c r id price aggressiveness min_savings way).score ≡ true)
  select-IsEligible laws plans c r id price aggressiveness min_savings way p h =
      let same_plan = select-plan plans c r id price aggressiveness min_savings way in
      let same_score = select-score laws plans c r id price aggressiveness min_savings way in
      elim (scan_plans-IsFrom c r way (weights_for_aggressiveness aggressiveness) laws plans
        no_best) [
          | inl (plan, score) ↦ ground arith
          | inr (q, plan, found, candidate, score, better) ↦
              let same : q ≡ p = ground arith in
              let whole : (select plans c r id price aggressiveness min_savings way).score
                  ≡ score_plan q r.required_cpu_millis r.required_ram_mb
                      (weights_for_aggressiveness aggressiveness) =
                same_score ∙ score in
              (
                subst (λ x. Mem x plans) same found,
                is_candidate-IsEligible c r way p
                    (subst (λ x. is_candidate c r way x ≡ true) same candidate),
                subst
                    (λ x.
                      (select plans c r id price aggressiveness min_savings way).score
                      ≡ score_plan x r.required_cpu_millis r.required_ram_mb
                          (weights_for_aggressiveness aggressiveness))
                    same whole,
                subst (λ x. f.lt nought x ≡ true) (sym whole) better,
              )
        ]

  -- With floats in a strict partial order: no offered plan that passes the guards of the loop has a
  -- score above the one that `select` returns, whether it returns a plan or none.
  pub select-best :
      (laws : IsOrdered F) (plans : List (Plan F)) (c : ResourceConstraints) (r : Requirements)
      (id : String) (price : F) (aggressiveness : String) (min_savings : ℤ) (way : ScalingDirection)
      → All
          (λ q.
            f.lt (select plans c r id price aggressiveness min_savings way).score (
              score_plan q r.required_cpu_millis r.required_ram_mb
                (weights_for_aggressiveness aggressiveness))
            ≡ false)
          (keep (is_candidate c r way) plans)
  select-best laws plans c r id price aggressiveness min_savings way =
      let w = weights_for_aggressiveness aggressiveness in
      rw (select-score laws plans c r id price aggressiveness min_savings way) (
        All-keep_if
          (λ q. f.lt (best_of plans c r aggressiveness way).score (score_of c r way w q) ≡ false)
          (is_candidate c r way) plans (scan_plans-best c r way w laws plans no_best))

  -- `select` counts exactly the offered plans that pass all guards of its loop.
  pub select-candidates :
      (plans : List (Plan F)) (c : ResourceConstraints) (r : Requirements) (id : String) (price : F)
      (aggressiveness : String) (min_savings : ℤ) (way : ScalingDirection)
      → (select plans c r id price aggressiveness min_savings way).candidates
        ≡ length (keep (is_candidate c r way) plans)
  unfolding select
  select-candidates plans c r id price aggressiveness min_savings way =
      let count =
        scan_plans-candidates c r way (weights_for_aggressiveness aggressiveness) plans no_best in
      ground (arith, count)

  -- The minimum savings change nothing in what `select` returns: the branch for savings below the
  -- threshold returns the same result as the branch for savings above it.
  pub select-min_savings :
      (plans : List (Plan F)) (c : ResourceConstraints) (r : Requirements) (id : String) (price : F)
      (aggressiveness : String) (m n : ℤ) (way : ScalingDirection)
      → select plans c r id price aggressiveness m way
        ≡ select plans c r id price aggressiveness n way
  unfolding select
  select-min_savings plans c r id price aggressiveness m n way = ground arith
