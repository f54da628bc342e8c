-- ===== src/Controller/Prices.antt =====
-- internal/controller/scalingpolicy_controller.go: `ensureCache`, `resolveCurrentPlan`, and the choice
-- of a plan that `Reconcile` and the rebalancer (internal/controller/rebalancer.go) make alike.
use Prim.Native.Char.{Char}
use vpsie_k8s_capi_autoscale.Base.{
  zero, suc, ◌*◌, ℤ, pos, ltb_ℤ, leb_ℤ, add64, mul64, quot, String, ◌<>◌, not, ◌&&◌, Option, none,
  some, List, [], ◌∷◌, length, Result, ok, err, lookup, insert, ◌==◌, string_eq, if◌then◌else◌,
}
use vpsie_k8s_capi_autoscale.Float.{Float64, nought}
use vpsie_k8s_capi_autoscale.Plan.{Plan, NodeUtilization}
use vpsie_k8s_capi_autoscale.Policy.{ResourceConstraints, ScalingPolicySpec}
use vpsie_k8s_capi_autoscale.World.{
  Calls, Env, MachineDeployment, get_template, ensure_fresh_prices, found, missing, unknown,
}
use vpsie_k8s_capi_autoscale.Pricing.Cache.{
  Cache, new_cache, ensure_fresh, find_plan_by_id, plans_of,
}
use vpsie_k8s_capi_autoscale.PlanSwitch.{MachineTemplate}
use vpsie_k8s_capi_autoscale.Selector.{ScalingDirection, SelectionResult, Requirements, select}
use vpsie_k8s_capi_autoscale.Utilization.Thresholds.{UtilizationResult}
use vpsie_k8s_capi_autoscale.Horizontal.Pass.{minutes}
use vpsie_k8s_capi_autoscale.Controller.{Objects, PriceSource, Caches}

abbrev pub default_refresh_interval : ℤ
default_refresh_interval = minutes 5

abbrev pub default_min_savings_percent : ℤ
default_min_savings_percent = pos 15

module _ {F K : Type 0} (objects : Objects F K) where
  -- The cache of the UID, or a new one; with it the caches afterwards.
  unfoldable pub ensure_cache :
      String → String → String → String → Option ℤ → Caches F → Result (Caches F × PriceSource F)
  ensure_cache uid api_key dc_id os_id refresh_interval caches = elim (lookup uid caches) [
    | some source ↦ ok (caches, source)
    | none ↦ elim (objects.new_pricing_client api_key) [
      | err e ↦ err e
      | ok _ ↦
          let interval : ℤ = elim refresh_interval [
            | none ↦ default_refresh_interval
            | some d ↦ d
          ] in
          let source : PriceSource F = record {
            api_key = api_key;
            cache = new_cache dc_id os_id interval;
          } in
          ok (insert uid source caches, source)
    ]
  ]

  -- `cache.EnsureFresh`, with the time before and after its calls.
  unfoldable pub freshen :
      (Char → Char) → Env → PriceSource F → Calls → Calls × Result (PriceSource F)
  freshen lower_rune env source calls =
      let asked = ensure_fresh_prices ∷ calls in
      elim (ensure_fresh lower_rune (objects.prices source.api_key calls) (env.clock calls)
        (env.clock asked) source.cache) [
          | err e ↦ (asked, err e)
          | ok cache ↦ (asked, ok (record source { cache = cache }))
        ]

  -- The plan, the template, and the error.
  unfoldable pub resolve_current_plan :
      MachineDeployment
      → Cache F
      → Calls
      → Calls × Option (Plan F) × Option (MachineTemplate K) × Option String
  resolve_current_plan md cache calls =
      let asked = get_template md.namespace md.infrastructure_name ∷ calls in
      if md.infrastructure_name == ""
      then (calls, none, none, some "MachineDeployment has no infrastructureRef")
      else elim (objects.template asked) [
        | missing e ↦ (
          asked,
          none,
          none,
          some ("getting VPSieMachineTemplate " <> md.infrastructure_name <> ": " <> e),
        )
        | unknown e ↦ (
          asked,
          none,
          none,
          some ("getting VPSieMachineTemplate " <> md.infrastructure_name <> ": " <> e),
        )
        | found t ↦ elim (find_plan_by_id cache t.resource_identifier) [
          | none ↦ (
            asked,
            none,
            some t,
            some ("plan " <> t.resource_identifier <> " not found in cache"),
          )
          | some plan ↦ (asked, some plan, some t, none)
        ]
      ]

-- The sums over the nodes of the requests, the memory in megabytes.
unfoldable pub sum_requests : List NodeUtilization → ℤ → ℤ → ℤ × ℤ
sum_requests [] cpu ram = (cpu, ram)
sum_requests (n ∷ ns) cpu ram =
    sum_requests ns (add64 cpu n.requested_cpu) (add64 ram (quot n.requested_ram (1024 * 1024)))

-- The greater of the constraint and of the average over the nodes.
abbrev pub at_least : ℤ → ℤ → ℤ
at_least required per_node = if ltb_ℤ required per_node then per_node else required

abbrev pub sizes_of : {F : Type 0} → Option (Plan F) → ℤ × ℤ
sizes_of none = (pos 0, pos 0)
sizes_of (some p) = (Plan.cpu p, Plan.ram p)

module _ {F : Type 0} where
  unfoldable pub requirements_of :
      ResourceConstraints → Option (UtilizationResult F) → Option (Plan F) → Requirements
  unfolding sum_requests
  requirements_of c util plan =
      let static : Requirements = record {
        required_cpu_millis = mul64 c.min_cpu (pos 1000);
        required_ram_mb = c.min_ram;
        required_ssd_gb = c.min_ssd;
        current_cpu = (sizes_of plan).0;
        current_ram = (sizes_of plan).1;
      } in
      elim util [
        | none ↦ static
        | some r ↦
            let (cpu, ram) = sum_requests (UtilizationResult.nodes r) (pos 0) (pos 0) in
            elim (length (UtilizationResult.nodes r)) [
              | zero ↦ static
              | suc n ↦ record static {
                required_cpu_millis = at_least (static.required_cpu_millis) (quot cpu (suc n));
                required_ram_mb = at_least (static.required_ram_mb) (quot ram (suc n));
              }
            ]
      ]

abbrev pub identifier_of : {F : Type 0} → Option (Plan F) → String
identifier_of none = ""
identifier_of (some p) = Plan.identifier p

unfoldable pub min_savings_of : ScalingPolicySpec → ℤ
min_savings_of spec =
    let least = spec.rebalancing.min_savings_percent in
    if leb_ℤ least (pos 0) then default_min_savings_percent else least

module _ {F : Type 0} ⦃f : Float64 F⦄ where
  open f use {le, of_int}

  abbrev pub price_of : Option (Plan F) → F
  price_of none = nought
  price_of (some p) = Plan.price_monthly p

  unfoldable pub choose_plan :
      (Char → Char)
      → ScalingPolicySpec
      → Cache F
      → Option (UtilizationResult F)
      → Option (Plan F)
      → ScalingDirection
      → SelectionResult F
  choose_plan lower_rune spec cache util current direction =
      select (plans_of lower_rune cache spec.allowed_categories) spec.constraints
        (requirements_of spec.constraints util current) (identifier_of current) (price_of current)
        spec.aggressiveness (min_savings_of spec) direction

  -- The plan to switch to, if any.
  unfoldable pub switch_target :
      ScalingPolicySpec → Option (Plan F) → SelectionResult F → Option (Plan F)
  switch_target spec current result = elim result.plan [
    | none ↦ none
    | some p ↦
        if not (p.identifier == identifier_of current)
          && le (of_int (min_savings_of spec)) result.savings_percent
        then some p
        else none
  ]
