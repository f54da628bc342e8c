-- ===== src/NodePool/Groups.antt =====
-- internal/controller/nodepool.go: the pending pods that the current plan has no room for, grouped by
-- the cheapest plan that has. The map of the groups, keyed by the plan's identifier, is a list of its
-- entries; the order in which a loop ranges over it is a parameter of `reconcile_node_pools`.
use vpsie_k8s_capi_autoscale.Base.{
  not, Option, none, some, List, [], ◌∷◌, ◌++◌, Dict, lookup, insert, keep,
}
use vpsie_k8s_capi_autoscale.Cluster.{Pod}
use vpsie_k8s_capi_autoscale.Float.{Float64}
use vpsie_k8s_capi_autoscale.Plan.{Plan}
use vpsie_k8s_capi_autoscale.Policy.{ResourceConstraints}
use vpsie_k8s_capi_autoscale.NodePool.Fit.{
  pod_resource_requests, megabytes, pod_fits_current_plan, find_cheapest_fitting_plan,
}

pub record PlanGroup (F : Type 0) : Type 0 where
  pub plan : Plan F
  pub pods : List Pod

abbrev pub oversized : {F : Type 0} → Plan F → List Pod → List Pod
oversized plan pods = keep (λ pod. not (pod_fits_current_plan pod plan)) pods

-- The pod joins the group of the plan, which keeps the plan that opened it.
unfoldable pub join_group : {F : Type 0} → Pod → Plan F → Dict (PlanGroup F) → Dict (PlanGroup F)
join_group pod plan groups = elim (lookup plan.identifier groups) [
  | none ↦ insert plan.identifier (record { plan = plan; pods = pod ∷ [] }) groups
  | some g ↦ insert plan.identifier (record g { pods = g.pods ++ (pod ∷ []) }) groups
]

module _ {F : Type 0} ⦃f : Float64 F⦄ where
  -- The plan to which a pod goes.
  abbrev pub plan_for : List (Plan F) → ResourceConstraints → Pod → Option (Plan F)
  plan_for plans c pod =
      let requests = pod_resource_requests pod in
      find_cheapest_fitting_plan plans requests.cpu (megabytes requests.ram) c

  -- A pod that fits no plan is passed over.
  unfoldable pub group_by_plan :
      List (Plan F) → ResourceConstraints → List Pod → Dict (PlanGroup F) → Dict (PlanGroup F)
  group_by_plan plans c [] groups = groups
  group_by_plan plans c (pod ∷ pods) groups =
      group_by_plan plans c pods
        (elim (plan_for plans c pod) [ none ↦ groups | some plan ↦ join_group pod plan groups ])
