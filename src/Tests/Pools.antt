-- ===== src/Tests/Pools.antt =====
-- The satellites of a policy on the sample cluster, in which a pod pends that needs a larger plan.
use Prim.Native.Char.{Char}
use mathlib.Core.List.{Perm}
use vpsie_k8s_capi_autoscale.Base.{
  ℕ, ◌≤◌, ℤ, pos, ltb_ℤ, leb_ℤ, ◌≡◌, refl, String, Bool, true, false, some, none, List, [], ◌∷◌,
  All, Dict, length, keep, IsDistinct, ok, arith, map_runes,
}
use vpsie_k8s_capi_autoscale.Cluster.{Pod}
use vpsie_k8s_capi_autoscale.Policy.{ScalingPolicySpec}
use vpsie_k8s_capi_autoscale.World.{Env, absent, present}
use vpsie_k8s_capi_autoscale.Pricing.Cache.{Cache}
use vpsie_k8s_capi_autoscale.PlanSwitch.{MachineTemplate}
use vpsie_k8s_capi_autoscale.Horizontal.Pass.{max_replicas_of}
use vpsie_k8s_capi_autoscale.NodePool.Groups.{PlanGroup, group_by_plan}
use vpsie_k8s_capi_autoscale.NodePool.Partition.{
  members, has_plan, IsServable, group_by_plan-IsPartition,
}
use vpsie_k8s_capi_autoscale.NodePool.Pools.{reconcile_node_pools}
use vpsie_k8s_capi_autoscale.NodePool.Capacity.{reconcile_node_pools-bounded}
use vpsie_k8s_capi_autoscale.NodePool.Growth.{IsWithinMax, reconcile_node_pools-IsWithinMax}
use vpsie_k8s_capi_autoscale.NodePool.Satellite.{satellite_md_name}
use vpsie_k8s_capi_autoscale.NodePool.Groups.{oversized}
use vpsie_k8s_capi_autoscale.NodePool.Tracking.{creations, reconcile_node_pools-forgets}
use vpsie_k8s_capi_autoscale.Pricing.Cache.{plans_of}
use vpsie_k8s_capi_autoscale.Horizontal.Pass.{done}
use vpsie_k8s_capi_autoscale.Base.{add64, sub64, mul64, quot, ◌+ℤ◌, ◌-ℤ◌, ◌*ℤ◌, wrap64, string_eq}
use vpsie_k8s_capi_autoscale.NodePool.Fit.{
  pod_fits_current_plan, pod_resource_requests, find_cheapest_fitting_plan, scan_cheapest,
  is_fitting_plan, cheaper,
}
use vpsie_k8s_capi_autoscale.NodePool.Groups.{join_group}
use vpsie_k8s_capi_autoscale.Utilization.Calculator.{request_containers}
use vpsie_k8s_capi_autoscale.Pricing.Scorer.{plan_capacity}
use vpsie_k8s_capi_autoscale.Selector.{meets_constraints, has_capacity}
use vpsie_k8s_capi_autoscale.Tests.Sample.{
  thousandths, env, pod, pass, spec, small, medium, large, constraints,
}

abbrev pub same_rune : Char → Char
same_rune c = c

abbrev pub cache : Cache ℤ
cache = record {
  dc_id = "dc";
  os_id = "os";
  refresh_interval = pos 300000000000;
  categories = [];
  plans = small ∷ medium ∷ large ∷ [];
  category_name_map = [];
  last_refresh = pos 0;
}

-- The settings are a text.
abbrev pub template : MachineTemplate String
template = record {
  name = "template";
  namespace = "default";
  labels = [];
  resource_identifier = "small";
  settings = "";
}

abbrev pools_spec : Bool → ScalingPolicySpec
pools_spec dry_run = record (spec dry_run) {
  node_pool_policy = some (record { enabled = true; max_pools = pos 2; scale_down_delay = none });
}

-- One that the small plan has room for, two that only the medium plan has, one that needs the large.
abbrev pending : List Pod
pending =
    pod "p0" "" (pos 100)
    ∷ pod "p1" "" (pos 3000)
    ∷ pod "p2" "" (pos 3100)
    ∷ pod "p3" "" (pos 7000)
    ∷ []

abbrev pub in_order : Dict (PlanGroup ℤ) → List (String × PlanGroup ℤ)
in_order groups = groups

-- No satellite is there, or every one is there.
abbrev fresh : Env
fresh = record (env (pos 1) pending (ok (pos 0))) { deployment_found = λ _. absent }

abbrev grown : Env
grown = env (pos 1) pending (ok (pos 0))

group_by_plan-IsPartition_example :
    let groups = group_by_plan (small ∷ medium ∷ []) constraints pending [] in
    Perm (members groups) (keep (has_plan (small ∷ medium ∷ []) constraints) pending)
    × IsDistinct groups
    × All (IsServable (small ∷ medium ∷ []) constraints) groups
unfolding vpsie_k8s_capi_autoscale.Pricing.Cache.find_plan vpsie_k8s_capi_autoscale.Base.string_eq
group_by_plan-IsPartition_example =
    group_by_plan-IsPartition (small ∷ medium ∷ []) constraints pending (refl, (refl, tt))

reconcile_node_pools-bounded_example :
    length
      (reconcile_node_pools same_rune in_order fresh
        (pools_spec false)
        cache
        "c"
        (some small)
        (some template)
        (pass "" none)).0.status.node_pools
    ≤ 2
unfolding vpsie_k8s_capi_autoscale.NodePool.Pools.max_pools_of ltb_ℤ
reconcile_node_pools-bounded_example =
    reconcile_node_pools-bounded same_rune in_order fresh (pools_spec false) cache "c" (some small)
      (some template) (pass "" none)
      (record { enabled = true; max_pools = pos 2; scale_down_delay = none }) 2 refl (omega arith)
      (omega arith)

reconcile_node_pools-IsWithinMax_example :
    All
      (IsWithinMax (max_replicas_of (pools_spec false).horizontal))
      (reconcile_node_pools same_rune in_order grown
        (pools_spec false)
        cache
        "c"
        (some small)
        (some template)
        (pass "" none)).0.calls
unfolding max_replicas_of leb_ℤ
reconcile_node_pools-IsWithinMax_example =
    reconcile_node_pools-IsWithinMax same_rune in_order grown (pools_spec false) cache "c"
      (some small) (some template) (pass "" none) (omega arith, omega arith)
      (λ _. (omega arith, omega arith)) tt

-- One pod that the small plan has no room for, and a template for its satellite.
abbrev one_pending : List Pod
one_pending = pod "p1" "" (pos 3000) ∷ []

abbrev lagging : Env
lagging = record (env (pos 1) one_pending (ok (pos 0))) {
  deployment_found = λ _. absent;
  template_found = λ _. present;
}

abbrev medium_group : PlanGroup ℤ
medium_group = record { plan = medium; pods = one_pending }

one_group :
    in_order
      (group_by_plan (plans_of same_rune cache []) constraints (oversized small one_pending) [])
    ≡ ("medium", medium_group) ∷ []
unfolding group_by_plan join_group pod_fits_current_plan pod_resource_requests request_containers
    plan_capacity find_cheapest_fitting_plan scan_cheapest is_fitting_plan cheaper meets_constraints
    has_capacity plans_of leb_ℤ ltb_ℤ add64 sub64 mul64 quot ◌+ℤ◌ ◌-ℤ◌ ◌*ℤ◌ wrap64 string_eq
one_group = refl

reconcile_node_pools-forgets_example :
    let (q, exit) =
      reconcile_node_pools same_rune in_order lagging
        (pools_spec false)
        cache
        "c"
        (some small)
        (some template)
        (pass "" none) in
    (exit ≡ done)
    × (creations q.calls ≡ satellite_md_name same_rune "md" "medium" ∷ [])
    × (q.status.node_pools ≡ [])
reconcile_node_pools-forgets_example =
    reconcile_node_pools-forgets same_rune in_order lagging (pools_spec false) cache "c" small
      template (pass "" none)
      (record { enabled = true; max_pools = pos 2; scale_down_delay = none }) one_pending "medium"
      medium_group refl refl refl refl refl one_group refl refl (λ _. refl) (λ _. refl) (λ _. refl)
