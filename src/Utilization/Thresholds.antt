-- ===== src/Utilization/Thresholds.antt =====
-- internal/utilization/types.go, and of calculator.go what is read off a result: the thresholds and
-- the effective percentages.
use vpsie_k8s_capi_autoscale.Base.{ℤ, String, Bool, ◌&&◌, ◌||◌, List, if◌then◌else◌}
use vpsie_k8s_capi_autoscale.Float.{Float64}
use vpsie_k8s_capi_autoscale.Plan.{NodeUtilization}

pub record UtilizationResult (F : Type 0) : Type 0 where
  pub scheduled_cpu_percent : F
  pub scheduled_memory_percent : F
  pub actual_cpu_percent : F
  pub actual_memory_percent : F
  pub metrics_available : Bool
  pub nodes : List NodeUtilization
  pub source : String

module _ {F : Type 0} ⦃f : Float64 F⦄ where
  open f use {lt, of_int, to_int}

  unfoldable pub max : F → F → F
  max a b = if lt b a then a else b

  unfoldable pub min : F → F → F
  min a b = if lt a b then a else b

  -- The largest and the smallest of the percentages that count.
  unfoldable pub highest : UtilizationResult F → F → F → F
  unfolding max
  highest r scheduled actual = if r.metrics_available then max scheduled actual else scheduled

  unfoldable pub lowest : UtilizationResult F → F → F → F
  unfolding min
  lowest r scheduled actual = if r.metrics_available then min scheduled actual else scheduled

  -- `needsUpscale` and `needsDownscale`.
  unfoldable pub evaluate_thresholds : UtilizationResult F → ℤ → ℤ → Bool × Bool
  unfolding highest lowest
  evaluate_thresholds r scale_up_threshold scale_down_threshold =
      let up = of_int scale_up_threshold in
      let down = of_int scale_down_threshold in
      let cpu_max = highest r r.scheduled_cpu_percent r.actual_cpu_percent in
      let memory_max = highest r r.scheduled_memory_percent r.actual_memory_percent in
      let cpu_min = lowest r r.scheduled_cpu_percent r.actual_cpu_percent in
      let memory_min = lowest r r.scheduled_memory_percent r.actual_memory_percent in
      (lt up cpu_max || lt up memory_max, lt cpu_min down && lt memory_min down)

  abbrev pub effective_source : UtilizationResult F → String
  effective_source r = r.source

  unfoldable pub effective_cpu_percent : UtilizationResult F → ℤ
  unfolding highest
  effective_cpu_percent r = to_int (highest r r.scheduled_cpu_percent r.actual_cpu_percent)

  unfoldable pub effective_memory_percent : UtilizationResult F → ℤ
  unfolding highest
  effective_memory_percent r = to_int (highest r r.scheduled_memory_percent r.actual_memory_percent)
