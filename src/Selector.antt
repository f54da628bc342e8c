-- ===== src/Selector.antt =====
-- internal/selector/selector.go.
pub mod Eligible
pub mod Scan
pub mod Choice
pub mod Savings
use vpsie_k8s_capi_autoscale.Base.{
  ℕ, suc, ℤ, pos, ltb_ℤ, leb_ℤ, String, Bool, true, false, not, ◌&&◌, ◌||◌, Option, none, some,
  List, [], ◌∷◌, contains, ◌==◌, string_eq, if◌then◌else◌,
}
use vpsie_k8s_capi_autoscale.Float.{Float64, nought}
use vpsie_k8s_capi_autoscale.Plan.{Plan}
use vpsie_k8s_capi_autoscale.Policy.{ResourceConstraints}
use vpsie_k8s_capi_autoscale.Pricing.Scorer.{
  Weights, plan_capacity, weights_for_aggressiveness, score_plan, savings_percent,
}

pub data ScalingDirection : Type 0 where
  direction_any direction_up direction_down : ScalingDirection

pub record SelectionResult (F : Type 0) : Type 0 where
  pub plan : Option (Plan F)
  pub score : F
  pub savings_percent : F
  pub candidates : ℕ

-- What the workload needs of a node, and what the current plan has.
pub record Requirements : Type 0 where
  pub required_cpu_millis : ℤ
  pub required_ram_mb : ℤ
  pub required_ssd_gb : ℤ
  pub current_cpu : ℤ
  pub current_ram : ℤ

unfoldable pub meets_constraints : {F : Type 0} → ResourceConstraints → Plan F → Bool
meets_constraints c p =
    not (contains p.identifier c.excluded_plans)
    && not (ltb_ℤ p.cpu c.min_cpu || ltb_ℤ c.max_cpu p.cpu)
    && not (ltb_ℤ p.ram c.min_ram || ltb_ℤ c.max_ram p.ram)
    && not (ltb_ℤ p.ssd c.min_ssd)

unfoldable pub direction_allows : {F : Type 0} → ScalingDirection → ℤ → ℤ → Plan F → Bool
direction_allows direction_any current_cpu current_ram p = true
direction_allows direction_up current_cpu current_ram p =
    not (leb_ℤ p.cpu current_cpu && leb_ℤ p.ram current_ram)
direction_allows direction_down current_cpu current_ram p =
    not (leb_ℤ current_cpu p.cpu && leb_ℤ current_ram p.ram)

unfoldable pub has_capacity : {F : Type 0} → ℤ → ℤ → Plan F → Bool
has_capacity cpu_millis ram_mb p =
    let capacity = plan_capacity p in
    not (ltb_ℤ capacity.cpu_millis cpu_millis || ltb_ℤ capacity.ram_mb ram_mb)

-- The guards of the loop: a plan for which none of them continues is a candidate.
unfoldable pub is_candidate :
    {F : Type 0} → ResourceConstraints → Requirements → ScalingDirection → Plan F → Bool
is_candidate c r direction p =
    meets_constraints c p
    && direction_allows direction r.current_cpu r.current_ram p
    && has_capacity r.required_cpu_millis r.required_ram_mb p
    && not (ltb_ℤ p.ssd r.required_ssd_gb)

-- `bestPlan`, `bestScore` and `candidates`.
pub record Best (F : Type 0) : Type 0 where
  pub plan : Option (Plan F)
  pub score : F
  pub candidates : ℕ

unfoldable pub effective_min_savings : ScalingDirection → ℤ → ℤ
effective_min_savings direction_up min_savings_percent = pos 0
effective_min_savings _ min_savings_percent = min_savings_percent

module _ {F : Type 0} ⦃f : Float64 F⦄ where
  open f use {lt, of_int}

  unfoldable pub offer : F → Plan F → Best F → Best F
  offer score p b =
      let counted = record b { candidates = suc b.candidates } in
      if lt b.score score then record counted { plan = some p; score = score } else counted

  unfoldable pub scan_plans :
      ResourceConstraints
      → Requirements
      → ScalingDirection
      → Weights F
      → List (Plan F)
      → Best F
      → Best F
  scan_plans c r way w [] b = b
  scan_plans c r way w (p ∷ ps) b = scan_plans c r way w ps (
      if is_candidate c r way p
      then offer (score_plan p r.required_cpu_millis r.required_ram_mb w) p b
      else b)

  abbrev pub no_best : Best F
  no_best = record { plan = none; score = nought; candidates = 0 }

  unfoldable pub select :
      List (Plan F)
      → ResourceConstraints
      → Requirements
      → String
      → F
      → String
      → ℤ
      → ScalingDirection
      → SelectionResult F
  unfolding effective_min_savings
  select plans c r current_plan_id current_price aggressiveness min_savings_percent direction =
      let best =
        scan_plans c r direction (weights_for_aggressiveness aggressiveness) plans no_best in
      elim best.plan [
        | none ↦ record {
          plan = none;
          score = nought;
          savings_percent = nought;
          candidates = best.candidates;
        }
        | some p ↦
            let savings = savings_percent current_price p.price_monthly in
            let threshold = of_int (effective_min_savings direction min_savings_percent) in
            if p.identifier == current_plan_id
            then record {
              plan = some p;
              score = best.score;
              savings_percent = nought;
              candidates = best.candidates;
            }
            else if lt savings threshold
            then record {
              plan = some p;
              score = best.score;
              savings_percent = savings;
              candidates = best.candidates;
            }
            else record {
              plan = some p;
              score = best.score;
              savings_percent = savings;
              candidates = best.candidates;
            }
      ]
