-- ===== src/NodePool/Fit.antt =====
-- internal/controller/nodepool.go: what a pod requests, whether a plan has room for it, and the
-- cheapest plan that has.
use vpsie_k8s_capi_autoscale.Base.{
  ◌*◌, ℤ, quot, leb_ℤ, Bool, ◌&&◌, Option, none, some, List, [], ◌∷◌, if◌then◌else◌,
}
use vpsie_k8s_capi_autoscale.Cluster.{Pod}
use vpsie_k8s_capi_autoscale.Float.{Float64}
use vpsie_k8s_capi_autoscale.Plan.{Plan}
use vpsie_k8s_capi_autoscale.Policy.{ResourceConstraints}
use vpsie_k8s_capi_autoscale.Pricing.Scorer.{plan_capacity}
use vpsie_k8s_capi_autoscale.Selector.{meets_constraints, has_capacity}
use vpsie_k8s_capi_autoscale.Utilization.Calculator.{Amount, no_amount, request_containers}

-- The CPU in millicores and the memory in bytes of the regular containers.
unfoldable pub pod_resource_requests : Pod → Amount
pod_resource_requests pod = request_containers no_amount pod.containers

-- Bytes to megabytes, rounded towards zero.
abbrev pub megabytes : ℤ → ℤ
megabytes bytes = quot bytes (1024 * 1024)

unfoldable pub pod_fits_current_plan : {F : Type 0} → Pod → Plan F → Bool
pod_fits_current_plan pod plan =
    let requests = pod_resource_requests pod in
    let capacity = plan_capacity plan in
    leb_ℤ requests.cpu capacity.cpu_millis && leb_ℤ (megabytes requests.ram) capacity.ram_mb

-- The guards of the loop of `findCheapestFittingPlan`.
unfoldable pub is_fitting_plan : {F : Type 0} → ResourceConstraints → ℤ → ℤ → Plan F → Bool
is_fitting_plan c cpu_millis ram_mb p = meets_constraints c p && has_capacity cpu_millis ram_mb p

module _ {F : Type 0} ⦃f : Float64 F⦄ where
  open f use {lt}

  -- The cheaper plan; a plan of the same price does not replace the best.
  unfoldable pub cheaper : Option (Plan F) → Plan F → Plan F
  cheaper none p = p
  cheaper (some best) p = if lt p.price_monthly best.price_monthly then p else best

  unfoldable pub scan_cheapest :
      ResourceConstraints → ℤ → ℤ → List (Plan F) → Option (Plan F) → Option (Plan F)
  scan_cheapest c cpu_millis ram_mb [] best = best
  scan_cheapest c cpu_millis ram_mb (p ∷ ps) best =
      scan_cheapest c cpu_millis ram_mb ps
        (if is_fitting_plan c cpu_millis ram_mb p then some (cheaper best p) else best)

  unfoldable pub find_cheapest_fitting_plan :
      List (Plan F) → ℤ → ℤ → ResourceConstraints → Option (Plan F)
  find_cheapest_fitting_plan plans cpu_millis ram_mb c =
      scan_cheapest c cpu_millis ram_mb plans none
