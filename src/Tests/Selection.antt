-- ===== src/Tests/Selection.antt =====
-- A choice between two plans, on the sample policy.
use mathlib.Core.List.{Mem}
use vpsie_k8s_capi_autoscale.Base.{
  ℤ, pos, length, keep, ◌≡◌, refl, Bool, true, false, Option, none, some, List, [], ◌∷◌, All,
  string_eq, arith,
}
use vpsie_k8s_capi_autoscale.Plan.{Plan}
use vpsie_k8s_capi_autoscale.Pricing.Scorer.{score_plan, weights_for_aggressiveness}
use vpsie_k8s_capi_autoscale.Selector.{
  Requirements, SelectionResult, direction_up, is_candidate, select,
}
use vpsie_k8s_capi_autoscale.Selector.Eligible.{IsEligible}
use vpsie_k8s_capi_autoscale.Selector.Choice.{
  select-IsEligible, select-best, select-candidates, select-min_savings,
}
use vpsie_k8s_capi_autoscale.Tests.Sample.{
  thousandths, thousandths-IsOrdered, constraints, small, medium, large,
}

-- Upwards from the small plan.
abbrev request : Requirements
request = record {
  required_cpu_millis = pos 2000;
  required_ram_mb = pos 4096;
  required_ssd_gb = pos 0;
  current_cpu = pos 1;
  current_ram = pos 2048;
}

abbrev plans : List (Plan ℤ)
plans = small ∷ medium ∷ large ∷ []

abbrev chosen : SelectionResult ℤ
chosen = select plans constraints request "small" (pos 5000) "moderate" (pos 10) direction_up

chosen_value : (chosen.plan ≡ some medium) × (chosen.candidates ≡ 2)
unfolding select vpsie_k8s_capi_autoscale.Selector.scan_plans is_candidate
    vpsie_k8s_capi_autoscale.Selector.meets_constraints vpsie_k8s_capi_autoscale.Base.ltb_ℤ
    vpsie_k8s_capi_autoscale.Selector.direction_allows vpsie_k8s_capi_autoscale.Base.leb_ℤ
    vpsie_k8s_capi_autoscale.Selector.has_capacity
    vpsie_k8s_capi_autoscale.Pricing.Scorer.plan_capacity vpsie_k8s_capi_autoscale.Base.sub64
    vpsie_k8s_capi_autoscale.Base.mul64 vpsie_k8s_capi_autoscale.Selector.offer score_plan
    vpsie_k8s_capi_autoscale.Base.◌+ℤ◌ vpsie_k8s_capi_autoscale.Base.quot weights_for_aggressiveness
    string_eq vpsie_k8s_capi_autoscale.Pricing.Scorer.savings_percent
    vpsie_k8s_capi_autoscale.Base.wrap64 vpsie_k8s_capi_autoscale.Base.◌*ℤ◌
    vpsie_k8s_capi_autoscale.Base.◌-ℤ◌ vpsie_k8s_capi_autoscale.Pricing.Scorer.fit_score
    vpsie_k8s_capi_autoscale.Selector.effective_min_savings
chosen_value = (refl, refl)

select-IsEligible_example :
    Mem medium plans
    × IsEligible constraints request direction_up medium
    × (chosen.score
        ≡ score_plan medium (pos 2000) (pos 4096) (weights_for_aggressiveness "moderate"))
    × (thousandths.lt (thousandths.of_int (pos 0)) chosen.score ≡ true)
select-IsEligible_example =
    select-IsEligible thousandths-IsOrdered plans constraints request "small" (pos 5000) "moderate"
      (pos 10) direction_up medium chosen_value.0

select-best_example :
    All
      (λ q.
        thousandths.lt chosen.score
          (score_plan q (pos 2000) (pos 4096) (weights_for_aggressiveness "moderate"))
        ≡ false)
      (keep (is_candidate constraints request direction_up) plans)
select-best_example =
    select-best thousandths-IsOrdered plans constraints request "small" (pos 5000) "moderate"
      (pos 10) direction_up

select-candidates_example :
    chosen.candidates ≡ length (keep (is_candidate constraints request direction_up) plans)
select-candidates_example =
    select-candidates plans constraints request "small" (pos 5000) "moderate" (pos 10) direction_up

-- Savings of at least 10 and of at least 90 percent.
select-min_savings_example :
    chosen ≡ select plans constraints request "small" (pos 5000) "moderate" (pos 90) direction_up
select-min_savings_example =
    select-min_savings plans constraints request "small" (pos 5000) "moderate" (pos 10) (pos 90)
      direction_up
