-- ===== src/Tests/Plans.antt =====
-- The pricing cache, and the cheapest plan for a large pod, on the sample plans.
use Prim.Native.Char.{Char}
use mathlib.Core.List.{Mem}
use vpsie_k8s_capi_autoscale.Base.{
  ℤ, pos, keep, ltb_ℤ, ◌≡◌, ◌⊎◌, inl, inr, refl, Bool, false, String, Option, none, some, List, [],
  ◌∷◌, All, Result, ok, string_eq, arith, ◌==◌, map_runes,
}
use vpsie_k8s_capi_autoscale.Plan.{Plan, PlanCategory}
use vpsie_k8s_capi_autoscale.Pricing.Cache.{
  PricingClient, Cache, new_cache, find_plan_by_id, refresh, resolve_category_id, plans_of,
}
use vpsie_k8s_capi_autoscale.Pricing.Lookup.{find_plan_by_id-IsFound, plans_of-IsAllowed}
use vpsie_k8s_capi_autoscale.Pricing.Refresh.{refresh-resolves, AreDistinct}
use vpsie_k8s_capi_autoscale.Selector.Eligible.{IsWithin, HasRoom}
use vpsie_k8s_capi_autoscale.NodePool.Fit.{is_fitting_plan, find_cheapest_fitting_plan}
use vpsie_k8s_capi_autoscale.NodePool.Cheapest.{
  IsCovered, find_cheapest_fitting_plan-fits, find_cheapest_fitting_plan-cheapest,
}
use vpsie_k8s_capi_autoscale.Tests.Sample.{
  thousandths, thousandths-IsOrdered, constraints, small, medium, large,
}

abbrev plans : List (Plan ℤ)
plans = small ∷ large ∷ medium ∷ []

found_value : find_cheapest_fitting_plan plans (pos 2000) (pos 4096) constraints ≡ some medium
unfolding find_cheapest_fitting_plan vpsie_k8s_capi_autoscale.NodePool.Fit.scan_cheapest
    is_fitting_plan vpsie_k8s_capi_autoscale.Selector.meets_constraints ltb_ℤ
    vpsie_k8s_capi_autoscale.Selector.has_capacity
    vpsie_k8s_capi_autoscale.Pricing.Scorer.plan_capacity vpsie_k8s_capi_autoscale.Base.sub64
    vpsie_k8s_capi_autoscale.Base.mul64 vpsie_k8s_capi_autoscale.NodePool.Fit.cheaper
found_value = refl

find_cheapest_fitting_plan-fits_example :
    Mem medium plans × IsWithin constraints medium × HasRoom (pos 2000) (pos 4096) medium
find_cheapest_fitting_plan-fits_example =
    find_cheapest_fitting_plan-fits plans (pos 2000) (pos 4096) constraints medium found_value

find_cheapest_fitting_plan-cheapest_example :
    All
      (λ q.
        IsCovered q.price_monthly
          (find_cheapest_fitting_plan plans (pos 2000) (pos 4096) constraints))
      (keep (is_fitting_plan constraints (pos 2000) (pos 4096)) plans)
find_cheapest_fitting_plan-cheapest_example =
    find_cheapest_fitting_plan-cheapest thousandths-IsOrdered plans (pos 2000) (pos 4096)
      constraints

-- Runes that have no upper case.
abbrev same_rune : Char → Char
same_rune c = c

abbrev categories : List PlanCategory
categories =
    record { identifier = "c1"; name = "shared" }
    ∷ record { identifier = "c2"; name = "dedicated" }
    ∷ []

abbrev client : PricingClient ℤ
client = record { fetch_categories = ok categories; fetch_plans = λ _ _ _. ok plans }

abbrev filled : Cache ℤ
filled = record {
  dc_id = "dc";
  os_id = "os";
  refresh_interval = pos 100;
  categories = categories;
  plans = plans;
  category_name_map = ("shared", "c1") ∷ ("dedicated", "c2") ∷ [];
  last_refresh = pos 1000;
}

find_plan_by_id-IsFound_example :
    ((p : Plan ℤ) × (find_plan_by_id filled "large" ≡ some p)
      × Mem p plans
      × (p.identifier ≡ "large"))
    ⊎ ((find_plan_by_id filled "large" ≡ none) × All (λ p. (p.identifier == "large") ≡ false) plans)
find_plan_by_id-IsFound_example = find_plan_by_id-IsFound filled "large"

plans_of-IsAllowed_example :
    All
      (λ p.
        (n : String) × Mem p plans
        × Mem n ("shared" ∷ [])
        × (resolve_category_id same_rune filled n ≡ some p.category_id))
      (plans_of same_rune filled ("shared" ∷ []))
plans_of-IsAllowed_example = plans_of-IsAllowed same_rune filled "shared" []

categories_distinct : AreDistinct same_rune categories
unfolding string_eq
categories_distinct = ((refl, tt), (tt, tt))

refresh-resolves_example :
    (d : Cache ℤ) × (refresh same_rune client (pos 1000) (new_cache "dc" "os" (pos 100)) ≡ ok d)
    × (d.dc_id ≡ "dc")
    × (d.os_id ≡ "os")
    × (d.refresh_interval ≡ (new_cache {F = ℤ} "dc" "os" (pos 100)).refresh_interval)
    × (d.last_refresh ≡ pos 1000)
    × (d.categories ≡ categories)
    × All (λ cat. resolve_category_id same_rune d cat.name ≡ some cat.identifier) categories
unfolding new_cache
refresh-resolves_example =
    refresh-resolves same_rune client (pos 1000) (new_cache "dc" "os" (pos 100)) categories refl
      categories_distinct
