-- ===== src/NodePool/Partition.antt =====
-- On the groups of pending pods of internal/controller/nodepool.go.
use mathlib.Core.Path.{subst}
use mathlib.Core.List.{Mem, Perm, perm_middle, perm_append_singleton, append-nil}
use mathlib.Core.List.Perm
use vpsie_k8s_capi_autoscale.Base.{
  ◌≡◌, refl, ◌∙◌, inl, inr, String, Bool, true, false, none, some, List, [], ◌∷◌, ◌++◌, All,
  All-append, All-map, keep, Dict, lookup, insert, IsDistinct, All-insert, All-lookup,
  insert-IsDistinct, Bool-cases, Option-cases, cond, arith, ◌==◌, string_eq,
}
use vpsie_k8s_capi_autoscale.Cluster.{Pod}
use vpsie_k8s_capi_autoscale.Float.{Float64}
use vpsie_k8s_capi_autoscale.Plan.{Plan}
use vpsie_k8s_capi_autoscale.Pricing.Cache.{find_plan}
use vpsie_k8s_capi_autoscale.Policy.{ResourceConstraints}
use vpsie_k8s_capi_autoscale.Selector.Eligible.{IsWithin, HasRoom}
use vpsie_k8s_capi_autoscale.NodePool.Fit.{pod_resource_requests, megabytes}
use vpsie_k8s_capi_autoscale.NodePool.Cheapest.{
  find_cheapest_fitting_plan-fits, find_cheapest_fitting_plan-All,
}
use vpsie_k8s_capi_autoscale.NodePool.Groups.{PlanGroup, join_group, plan_for, group_by_plan}

-- The pods of all groups.
abbrev pub members : {F : Type 0} → Dict (PlanGroup F) → List Pod
members [] = []
members ((_, g) ∷ groups) = PlanGroup.pods g ++ members groups

module _ {F : Type 0} where
  insert-members :
      (k : String) (pod : Pod) (plan : Plan F) (groups : Dict (PlanGroup F))
      → lookup k groups ≡ none
      → Perm
          (members (insert k (record { plan = plan; pods = pod ∷ [] }) groups))
          (pod ∷ members groups)
  insert-members k pod plan [] h = Perm.refl (pod ∷ [])
  insert-members k pod plan ((j, g) ∷ groups) h = elim (Bool-cases (k == j)) [
    | inl e ↦ absurd (ground arith)
    | inr e ↦
        rw (e, cond)
          (Perm.trans (Perm.append_left g.pods (insert-members k pod plan groups (ground arith)))
            (perm_middle g.pods (members groups)))
  ]

  append-members :
      (k : String) (pod : Pod) (g : PlanGroup F) (groups : Dict (PlanGroup F))
      → lookup k groups ≡ some g
      → Perm
          (members (insert k (record g { pods = g.pods ++ (pod ∷ []) }) groups))
          (pod ∷ members groups)
  append-members k pod g [] h = absurd (ground arith)
  append-members k pod g ((j, h) ∷ groups) found = elim (Bool-cases (k == j)) [
    | inl e ↦
        let same : h ≡ g = ground arith in
        rw (e, cond, same) (Perm.append_right (members groups) (perm_append_singleton pod g.pods))
    | inr e ↦
        rw (e, cond)
          (Perm.trans (Perm.append_left h.pods (append-members k pod g groups (ground arith)))
            (perm_middle h.pods (members groups)))
  ]

  join_group-members :
      (pod : Pod) (plan : Plan F) (groups : Dict (PlanGroup F))
      → Perm (members (join_group pod plan groups)) (pod ∷ members groups)
  unfolding join_group
  join_group-members pod plan groups = elim (Option-cases (lookup plan.identifier groups)) [
    | inl e ↦ rw (join_group, e) (insert-members plan.identifier pod plan groups e)
    | inr (g, e) ↦ rw (join_group, e) (append-members plan.identifier pod g groups e)
  ]

  join_group-IsDistinct :
      (pod : Pod) (plan : Plan F) (groups : Dict (PlanGroup F))
      → IsDistinct groups
      → IsDistinct (join_group pod plan groups)
  unfolding join_group
  join_group-IsDistinct pod plan groups h = elim (Option-cases (lookup plan.identifier groups)) [
    | inl e ↦ rw (join_group, e) (insert-IsDistinct plan.identifier _ groups h)
    | inr (g, e) ↦ rw (join_group, e) (insert-IsDistinct plan.identifier _ groups h)
  ]

module _ {F : Type 0} ⦃f : Float64 F⦄ (plans : List (Plan F)) (c : ResourceConstraints) where
  abbrev pub has_plan : Pod → Bool
  has_plan pod = elim (plan_for plans c pod) [ none ↦ false | some _ ↦ true ]

  -- The pod goes to a plan with the identifier.
  abbrev Belongs : String → Pod → Type 0
  Belongs k pod = (q : Plan F) × (plan_for plans c pod ≡ some q) × (q.identifier ≡ k)

  -- The group is keyed by its plan, to which one of its pods goes, and to which all go by identifier.
  abbrev IsKeyed : String × PlanGroup F → Type 0
  IsKeyed (k, g) =
      (k ≡ (PlanGroup.plan g).identifier)
      × ((pod : Pod) × (plan_for plans c pod ≡ some (PlanGroup.plan g)))
      × All (Belongs k) (PlanGroup.pods g)

  join_group-IsKeyed :
      (pod : Pod) (plan : Plan F) (groups : Dict (PlanGroup F))
      → plan_for plans c pod ≡ some plan
      → All IsKeyed groups
      → All IsKeyed (join_group pod plan groups)
  unfolding join_group
  join_group-IsKeyed pod plan groups goes h = elim (Option-cases (lookup plan.identifier groups)) [
    | inl e ↦
        rw (join_group, e)
          (All-insert IsKeyed plan.identifier (record { plan = plan; pods = pod ∷ [] }) groups h
            (refl, (pod, goes), ((plan, goes, refl), tt)))
    | inr (g, e) ↦
        let (keyed, opened, pods) = All-lookup IsKeyed plan.identifier g groups h e in
        rw (join_group, e)
          (All-insert IsKeyed plan.identifier (record g { pods = g.pods ++ (pod ∷ []) }) groups h
            (
              keyed,
              opened,
              All-append (Belongs plan.identifier) g.pods (pod ∷ []) pods ((plan, goes, refl), tt),
            ))
  ]

  abbrev IsGrouping : List Pod → Dict (PlanGroup F) → Type 0
  IsGrouping pods groups = Perm (members groups) pods × IsDistinct groups × All IsKeyed groups

  group_by_plan-IsGrouping :
      (pods seen : List Pod) (groups : Dict (PlanGroup F))
      → IsGrouping seen groups
      → IsGrouping (keep has_plan pods ++ seen) (group_by_plan plans c pods groups)
  unfolding group_by_plan
  group_by_plan-IsGrouping [] seen groups h = h
  group_by_plan-IsGrouping (pod ∷ pods) seen groups (perm, distinct, keyed) =
      elim (Option-cases (plan_for plans c pod)) [
        | inl e ↦ rw (e, cond) (group_by_plan-IsGrouping pods seen groups (perm, distinct, keyed))
        | inr (plan, e) ↦
            let (p, d, k) =
              group_by_plan-IsGrouping pods (pod ∷ seen) (join_group pod plan groups) (
                Perm.trans (join_group-members pod plan groups) (Perm.cons pod perm),
                join_group-IsDistinct pod plan groups distinct,
                join_group-IsKeyed pod plan groups e keyed,
              ) in
            rw (e, cond) (Perm.trans p (perm_middle (keep has_plan pods) seen), d, k)
      ]

  -- Each plan is the one that is found by its identifier.
  abbrev IsFound : Plan F → Type 0
  IsFound p = find_plan p.identifier plans ≡ some p

  abbrev pub IsNamed : Type 0
  IsNamed = All IsFound plans

  -- The plan of the group is offered, within the boundaries, and has room for each of its pods.
  abbrev pub IsServable : String × PlanGroup F → Type 0
  IsServable (k, g) =
      (k ≡ (PlanGroup.plan g).identifier)
      × Mem (PlanGroup.plan g) plans
      × IsWithin c (PlanGroup.plan g)
      × All
          (λ pod.
            HasRoom (pod_resource_requests pod).cpu (megabytes (pod_resource_requests pod).ram)
              (PlanGroup.plan g))
          (PlanGroup.pods g)

  plan_for-IsFound : (pod : Pod) (p : Plan F) → IsNamed → plan_for plans c pod ≡ some p → IsFound p
  plan_for-IsFound pod p named h =
      find_cheapest_fitting_plan-All IsFound plans (pod_resource_requests pod).cpu
        (megabytes (pod_resource_requests pod).ram) c p named h

  plan_for-fits :
      (pod : Pod) (p : Plan F)
      → plan_for plans c pod ≡ some p
      → Mem p plans
        × IsWithin c p
        × HasRoom (pod_resource_requests pod).cpu (megabytes (pod_resource_requests pod).ram) p
  plan_for-fits pod p h =
      find_cheapest_fitting_plan-fits plans (pod_resource_requests pod).cpu
        (megabytes (pod_resource_requests pod).ram) c p h

  plan_by_identifier : (p q : Plan F) → IsFound p → IsFound q → p.identifier ≡ q.identifier → p ≡ q
  plan_by_identifier p q h k e = ground arith

  IsKeyed-IsServable : IsNamed → (e : String × PlanGroup F) → IsKeyed e → IsServable e
  IsKeyed-IsServable named (k, g) (keyed, (opener, opened), pods) =
      let (found, within, _) = plan_for-fits opener g.plan opened in
      (
        keyed,
        found,
        within,
        All-map
            (λ pod (q, goes, same).
              let (offered, _, room) = plan_for-fits pod q goes in
              subst
                (λ p.
                  HasRoom (pod_resource_requests pod).cpu
                    (megabytes (pod_resource_requests pod).ram) p)
                (plan_by_identifier q g.plan (plan_for-IsFound pod q named goes)
                  (plan_for-IsFound opener g.plan named opened) (same ∙ keyed))
                room)
            g.pods pods,
      )

  -- The groups hold each pod for which there is a fitting plan in exactly one place, and no other pod.
  -- No two groups have the same plan. The plan of a group is one of the given plans, lies within the
  -- policy's boundaries, and a node of it can allocate what each single pod of the group requests.
  -- Condition: each of the given plans is the first of them with its identifier.
  pub group_by_plan-IsPartition :
      (pods : List Pod)
      → IsNamed
      → let groups = group_by_plan plans c pods [] in
        Perm (members groups) (keep has_plan pods) × IsDistinct groups × All IsServable groups
  group_by_plan-IsPartition pods named =
      let (perm, distinct, keyed) = group_by_plan-IsGrouping pods [] [] (Perm.refl [], tt, tt) in
      (
        subst (λ l. Perm (members (group_by_plan plans c pods [])) l)
            (append-nil (keep has_plan pods)) perm,
        distinct,
        All-map (IsKeyed-IsServable named) (group_by_plan plans c pods []) keyed,
      )
