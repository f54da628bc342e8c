-- ===== src/NodePool/Deletion.antt =====
-- When the cleanup deletes a satellite, and when it does not.
use mathlib.Core.Path.{subst}
use vpsie_k8s_capi_autoscale.Base.{
  ℕ, ℤ, pos, since, length, keep, cond, Bool-cases, Result, ◌==◌, string_eq, ltb_ℤ, ltb_ℤ-irrefl,
  ◌≡◌, ◌∙◌, ap, sym, refl, ◌⊎◌, inl, inr, true, false, String, Option, none, some, List, [], ◌∷◌,
  All, ok, err, arith,
}
use vpsie_k8s_capi_autoscale.Cluster.{Node}
use vpsie_k8s_capi_autoscale.Policy.{NodePoolStatus, ScalingPolicySpec}
use vpsie_k8s_capi_autoscale.World.{
  Calls, Env, get_deployment, list_nodes, delete_deployment, get_non_system_pod_count, present,
}
use vpsie_k8s_capi_autoscale.Horizontal.Pass.{Pass, call}
use vpsie_k8s_capi_autoscale.NodePool.Cleanup.{
  delay_of, count_pods, drop_template, delete_pool, age_pool, weigh_pool, inspect_pool,
  inspect_pools, with_kept, cleanup_node_pools,
}
use vpsie_k8s_capi_autoscale.NodePool.Inspection.{inspect_pool_cases}

-- The MachineDeployments that calls delete.
abbrev pub deletions : Calls → List String
deletions [] = []
deletions (delete_deployment name ∷ calls) = name ∷ deletions calls
deletions (_ ∷ calls) = deletions calls

-- At no moment is the last sight of the pool's pods as long ago as the delay.
abbrev pub IsRecent : Env → ScalingPolicySpec → NodePoolStatus → Type 0
IsRecent env spec pool =
    (pool.last_pod_seen ≡ none)
    ⊎ ((t : ℤ) × (pool.last_pod_seen ≡ some t)
        × ((calls : Calls) → ltb_ℤ (since (env.clock calls) t) (delay_of spec) ≡ true))

count_pods-deletions :
    (env : Env) (nodes : List Node) (total : ℤ) (p : Pass)
    → deletions (count_pods env nodes total p).0.calls ≡ deletions p.calls
unfolding count_pods
count_pods-deletions env [] total p = refl
count_pods-deletions env (n ∷ ns) total p =
    count_pods-deletions env ns _ (call (get_non_system_pod_count n.name) p)

age_pool-deletions :
    (env : Env) (spec : ScalingPolicySpec) (namespace : String) (pool : NodePoolStatus) (p : Pass)
    → IsRecent env spec pool
    → deletions (age_pool env spec namespace pool p).0.calls ≡ deletions p.calls
unfolding age_pool
age_pool-deletions env spec namespace pool p (inl e) = ground arith
age_pool-deletions env spec namespace pool p (inr (t, e, young)) =
    let now_young = young p.calls in ground arith

weigh_pool-deletions :
    (env : Env) (spec : ScalingPolicySpec) (namespace : String) (pool : NodePoolStatus)
    (nodes : List Node) (p : Pass)
    → IsRecent env spec pool
    → deletions (weigh_pool env spec namespace pool nodes p).0.calls ≡ deletions p.calls
unfolding weigh_pool
weigh_pool-deletions env spec namespace pool nodes p recent =
    let counted = count_pods-deletions env nodes (pos 0) p in
    let aged =
      age_pool-deletions env spec namespace pool (count_pods env nodes (pos 0) p).0 recent in
    ground arith

-- How often calls delete the MachineDeployment of a name.
abbrev pub deletions_of : String → Calls → ℕ
deletions_of name calls = length (keep (λ deleted. deleted == name) (deletions calls))

-- The pools of a name.
abbrev pub pools_named : String → List NodePoolStatus → List NodePoolStatus
pools_named name pools = keep (λ pool. pool.name == name) pools

delete_pool-deletions_of :
    (env : Env) (spec : ScalingPolicySpec) (namespace name : String) (pool : NodePoolStatus)
    (p : Pass)
    → (pool.name == name) ≡ false
    → deletions_of name (age_pool env spec namespace pool p).0.calls ≡ deletions_of name p.calls
unfolding age_pool delete_pool drop_template
delete_pool-deletions_of env spec namespace name pool p other = ground arith

weigh_pool-deletions_of :
    (env : Env) (spec : ScalingPolicySpec) (namespace name : String) (pool : NodePoolStatus)
    (nodes : List Node) (p : Pass)
    → (pool.name == name) ≡ false
    → deletions_of name (weigh_pool env spec namespace pool nodes p).0.calls
      ≡ deletions_of name p.calls
unfolding weigh_pool
weigh_pool-deletions_of env spec namespace name pool nodes p other =
    let q = (count_pods env nodes (pos 0) p).0 in
    let counted : deletions_of name q.calls ≡ deletions_of name p.calls =
      ap (λ l. length (keep (λ deleted. deleted == name) l))
        (count_pods-deletions env nodes (pos 0) p) in
    let aged = delete_pool-deletions_of env spec namespace name pool q other in ground arith

-- A pool of another name is deleted under its own name, a recent one is not deleted.
inspect_pool-deletions_of :
    (env : Env) (spec : ScalingPolicySpec) (namespace name : String) (pool : NodePoolStatus)
    (p : Pass)
    → ((pool.name == name) ≡ true → IsRecent env spec pool)
    → deletions_of name (inspect_pool env spec namespace pool p).0.calls ≡ deletions_of name p.calls
inspect_pool-deletions_of env spec namespace name pool p recent =
    inspect_pool_cases (λ o. deletions_of name o.0.calls ≡ deletions_of name p.calls) env spec
      namespace pool p (λ _. refl) (λ _. refl)
      (λ nodes. elim (Bool-cases (pool.name == name)) [
        | inl same ↦
            ap (λ l. length (keep (λ deleted. deleted == name) l))
              (weigh_pool-deletions env spec namespace pool nodes _ (recent same))
        | inr other ↦ weigh_pool-deletions_of env spec namespace name pool nodes _ other
      ])

inspect_pools-deletions_of :
    (env : Env) (spec : ScalingPolicySpec) (namespace name : String) (pools : List NodePoolStatus)
    (p : Pass)
    → All (IsRecent env spec) (pools_named name pools)
    → deletions_of name (inspect_pools env spec namespace pools p).0.calls
      ≡ deletions_of name p.calls
unfolding inspect_pools
inspect_pools-deletions_of env spec namespace name [] p recent = refl
inspect_pools-deletions_of env spec namespace name (pool ∷ pools) p recent =
    let q = (inspect_pool env spec namespace pool p).0 in
    elim (Bool-cases (pool.name == name)) [
      | inl same ↦
          let (this, others) : All (IsRecent env spec) (pool ∷ pools_named name pools) =
            rw (same, cond) at recent in
          inspect_pools-deletions_of env spec namespace name pools q others
          ∙ inspect_pool-deletions_of env spec namespace name pool p (λ _. this)
      | inr other ↦
          let others : All (IsRecent env spec) (pools_named name pools) =
            rw (other, cond) at recent in
          inspect_pools-deletions_of env spec namespace name pools q others
          ∙ inspect_pool-deletions_of env spec namespace name pool p (λ same. absurd (ground arith))
    ]

-- A satellite whose pods have been seen less than the delay ago, or were never looked for, is not
-- deleted by the cleanup, whatever the cluster answers and whatever becomes of the other satellites: no
-- MachineDeployment of its name is deleted. Condition: so it is with every satellite of that name that
-- the status notes.
pub cleanup_node_pools-deletions :
    (env : Env) (spec : ScalingPolicySpec) (namespace name : String) (p : Pass)
    → All (IsRecent env spec) (pools_named name p.status.node_pools)
    → deletions_of name (cleanup_node_pools env spec namespace p).calls ≡ deletions_of name p.calls
unfolding cleanup_node_pools
cleanup_node_pools-deletions env spec namespace name p recent =
    inspect_pools-deletions_of env spec namespace name p.status.node_pools p recent

-- An error, of whatever text.
abbrev pub IsFailed {ℓ} : {A : Type ℓ} → Result A → Type ℓ
IsFailed {A} r = (e : String) × (r ≡ err e)

count_pods-uncounted :
    (env : Env) (nodes : List Node) (total : ℤ) (p : Pass)
    → ((calls : Calls) → IsFailed (env.pod_count calls))
    → (count_pods env nodes total p).1 ≡ total
unfolding count_pods
count_pods-uncounted env [] total p uncounted = refl
count_pods-uncounted env (n ∷ ns) total p uncounted =
    let q = call (get_non_system_pod_count n.name) p in
    let (why, unreached) = uncounted q.calls in
    rw (unreached, count_pods) (count_pods-uncounted env ns total q uncounted)

-- The pool is dropped from the status, and its MachineDeployment deleted.
abbrev IsDeleted : NodePoolStatus → Pass → Pass × Option NodePoolStatus → Type 0
IsDeleted pool p (q, kept) = (kept ≡ none) × (deletions q.calls ≡ pool.name ∷ deletions p.calls)

age_pool-IsDeleted :
    (env : Env) (spec : ScalingPolicySpec) (namespace : String) (pool : NodePoolStatus) (p : Pass)
    (t : ℤ)
    → pool.last_pod_seen ≡ some t
    → ltb_ℤ (since (env.clock p.calls) t) (delay_of spec) ≡ false
    → spec.dry_run ≡ false
    → env.deleted (delete_deployment pool.name ∷ p.calls) ≡ ok tt
    → IsDeleted pool p (age_pool env spec namespace pool p)
unfolding age_pool delete_pool drop_template
age_pool-IsDeleted env spec namespace pool p t known old wet gone = ground arith

weigh_pool-IsDeleted :
    (env : Env) (spec : ScalingPolicySpec) (namespace : String) (pool : NodePoolStatus)
    (nodes : List Node) (p : Pass) (t : ℤ)
    → ((calls : Calls) → IsFailed (env.pod_count calls))
    → pool.last_pod_seen ≡ some t
    → ((calls : Calls) → ltb_ℤ (since (env.clock calls) t) (delay_of spec) ≡ false)
    → spec.dry_run ≡ false
    → ((calls : Calls) → env.deleted calls ≡ ok tt)
    → IsDeleted pool p (weigh_pool env spec namespace pool nodes p)
unfolding weigh_pool
weigh_pool-IsDeleted env spec namespace pool nodes p t uncounted known old wet gone =
    let q = (count_pods env nodes (pos 0) p).0 in
    let (dropped, deleted) =
      age_pool-IsDeleted env spec namespace pool q t known (old q.calls) wet
        (gone (delete_deployment pool.name ∷ q.calls)) in
    let nothing = count_pods-uncounted env nodes (pos 0) p uncounted in
    let same = count_pods-deletions env nodes (pos 0) p in
    let none_left = ltb_ℤ-irrefl (pos 0) in ground arith

-- If none of the counts of pods on the nodes of a satellite succeeds, the cleanup takes the satellite
-- for empty and deletes it, though pods may run on it: its status is dropped, and its
-- MachineDeployment is deleted. Conditions: it is the only satellite, it exists, its nodes are listed,
-- its pods were last seen no less than the delay ago, it is no dry run, and the deletion succeeds.
pub cleanup_node_pools-uncounted :
    (env : Env) (spec : ScalingPolicySpec) (namespace : String) (pool : NodePoolStatus) (n : Node)
    (ns : List Node) (p : Pass) (t : ℤ)
    → p.status.node_pools ≡ pool ∷ []
    → env.deployment_found (get_deployment pool.name ∷ p.calls) ≡ present
    → env.nodes (list_nodes pool.name ∷ get_deployment pool.name ∷ p.calls) ≡ ok (n ∷ ns)
    → ((calls : Calls) → IsFailed (env.pod_count calls))
    → pool.last_pod_seen ≡ some t
    → ((calls : Calls) → ltb_ℤ (since (env.clock calls) t) (delay_of spec) ≡ false)
    → spec.dry_run ≡ false
    → ((calls : Calls) → env.deleted calls ≡ ok tt)
    → ((cleanup_node_pools env spec namespace p).status.node_pools ≡ [])
      × (deletions (cleanup_node_pools env spec namespace p).calls ≡ pool.name ∷ deletions p.calls)
unfolding cleanup_node_pools inspect_pools inspect_pool
cleanup_node_pools-uncounted env spec namespace pool n ns p t only there listed uncounted known old
      wet gone =
    let q = call (list_nodes pool.name) (call (get_deployment pool.name) p) in
    let (dropped, deleted) : IsDeleted pool p (inspect_pool env spec namespace pool p) =
      rw (inspect_pool, there, listed)
        (weigh_pool-IsDeleted env spec namespace pool (n ∷ ns) q t uncounted known old wet gone) in
    subst
      (λ pools.
        ((inspect_pools env spec namespace pools p).1 ≡ [])
        × (deletions (inspect_pools env spec namespace pools p).0.calls
            ≡ pool.name ∷ deletions p.calls))
      (sym only) (ap (λ kept. with_kept kept []) dropped, deleted)
