-- ===== src/Horizontal/DrainEnds.antt =====
-- How a drain ends: by its timeout, or with a replica fewer.
use vpsie_k8s_capi_autoscale.Base.{
  ℤ, pos, sub32, ltb_ℤ→le, ◌≤ℤ◌, ◌⊎◌, inl, inr, Bool-cases, ltb_ℤ, ◌≡◌, ◌≢◌, refl, String, true,
  false, Option, none, some, List, [], ◌∷◌, ok, arith, since, le→ltb_ℤ, string_eq,
}
use vpsie_k8s_capi_autoscale.Cluster.{Pod}
use vpsie_k8s_capi_autoscale.Float.{Float64}
use vpsie_k8s_capi_autoscale.Plan.{Plan}
use vpsie_k8s_capi_autoscale.Policy.{ScalingPolicySpec}
use vpsie_k8s_capi_autoscale.Utilization.Thresholds.{UtilizationResult}
use vpsie_k8s_capi_autoscale.World.{
  Calls, Env, patch_replicas, uncordon_node, get_non_system_pod_count,
}
use vpsie_k8s_capi_autoscale.Horizontal.Pass.{
  Pass, Outcome, call, done, current_replicas_of, min_replicas_of,
}
use vpsie_k8s_capi_autoscale.Horizontal.Drain.{
  reduced, finish_drain, check_pending, continue_drain, default_drain_timeout,
}
use vpsie_k8s_capi_autoscale.Horizontal.Reconcile.{
  relevant_pods, reconcile_horizontal, with_client, with_pending,
}
use vpsie_k8s_capi_autoscale.Horizontal.Cases.{asked, counted}
use vpsie_k8s_capi_autoscale.World.{
  client_for_cluster, list_pending_pods, set_condition, record_event, horizontal_scaling,
  drain_timeout,
}

-- The calls up to the count of the pods that are left on the draining node.
abbrev pub counting : String → Pass → Calls
counting cluster_name p =
    get_non_system_pod_count p.status.draining_node ∷ (asked cluster_name p).calls

-- The patches of the replicas that calls make, the newest first: the name of the MachineDeployment and
-- the replicas that it is to have.
abbrev pub resizes : Calls → List (String × ℤ)
resizes [] = []
resizes (patch_replicas name n ∷ calls) = (name, n) ∷ resizes calls
resizes (_ ∷ calls) = resizes calls

-- One fewer in 32 bits, or the minimum where that would be below it.
abbrev pub IsOneFewer : ℤ → ℤ → ℤ → Type 0
IsOneFewer min current n =
    ((n ≡ sub32 current (pos 1)) × (min ≤ℤ n))
    ⊎ ((n ≡ min) × (ltb_ℤ (sub32 current (pos 1)) min ≡ true))

-- The replicas were set to one fewer, by one patch, and the drain is over.
abbrev pub IsReduced : ℤ → ℤ → Pass → Outcome → Type 0
IsReduced min current p (q, exit) =
    (n : ℤ) × IsOneFewer min current n
    × (exit ≡ done)
    × (q.status.draining_node ≡ "")
    × (q.status.current_replicas ≡ n)
    × (q.deployment.replicas ≡ some n)
    × (resizes q.calls ≡ (p.deployment.name, n) ∷ resizes p.calls)

reduced-IsOneFewer : (min current : ℤ) → IsOneFewer min current (reduced min current)
unfolding reduced
reduced-IsOneFewer min current = elim (Bool-cases (ltb_ℤ (sub32 current (pos 1)) min)) [
  | inl below ↦ inr (ground arith, below)
  | inr kept ↦
      let same : reduced min current ≡ sub32 current (pos 1) = ground arith in
      inl (same, rw same (ltb_ℤ→le (sub32 current (pos 1)) min kept))
]

finish_drain-IsReduced :
    (env : Env) (min current : ℤ) (p : Pass)
    → ((calls : Calls) → env.patched calls ≡ ok tt)
    → IsReduced min current p (finish_drain env min current p)
unfolding finish_drain
finish_drain-IsReduced env min current p patched =
    let fewer = reduced-IsOneFewer min current in
    rw (patched _, finish_drain) (reduced min current, fewer, refl, refl, refl, refl, refl)

continue_drain-IsReduced :
    (env : Env) (min current start : ℤ) (p : Pass)
    → ((calls : Calls) → env.patched calls ≡ ok tt)
    → env.pod_count (get_non_system_pod_count p.status.draining_node ∷ p.calls) ≡ ok (pos 0)
    → env.pending_pods
        (list_pending_pods ∷ get_non_system_pod_count p.status.draining_node ∷ p.calls)
      ≡ ok []
    → p.status.draining_started_at ≡ some start
    → ltb_ℤ default_drain_timeout (since (env.clock p.calls) start) ≡ false
    → IsReduced min current p (continue_drain env min current p)
unfolding continue_drain check_pending
continue_drain-IsReduced env min current start p patched left settled started late =
    let p₁ = call (get_non_system_pod_count p.status.draining_node) p in
    let empty : continue_drain env min current p ≡ check_pending env min current p₁ =
      ground (arith, le→ltb_ℤ (pos 0) (pos 0) (omega arith)) in
    let clear : check_pending env min current p₁
        ≡ finish_drain env min current (call list_pending_pods p₁) =
      rw (settled, check_pending) in
    rw (empty, clear) (finish_drain-IsReduced env min current _ patched)

module _ {F : Type 0} ⦃f : Float64 F⦄ where
  -- With a drain in progress the pass goes on with it.
  reconcile_horizontal-continue_drain :
      (env : Env) (spec : ScalingPolicySpec) (cluster_name : String)
      (util : Option (UtilizationResult F)) (plan : Option (Plan F)) (p : Pass) (pods : List Pod)
      → spec.horizontal.enabled ≡ true
      → env.has_workload_clients ≡ true
      → env.connect (client_for_cluster cluster_name p.deployment.namespace ∷ p.calls) ≡ ok tt
      → env.pending_pods (asked cluster_name p).calls ≡ ok pods
      → p.status.draining_node ≢ ""
      → reconcile_horizontal env spec cluster_name util plan p
        ≡ continue_drain env
            (min_replicas_of spec.horizontal)
            (current_replicas_of p.deployment)
            (counted (relevant_pods spec plan pods) (asked cluster_name p))
  unfolding reconcile_horizontal with_client with_pending
  reconcile_horizontal-continue_drain env spec cluster_name util plan p pods on clients reached
        listed busy =
      ground arith

  -- A pass that finds a drain older than five minutes ends it: it asks for the node to be made
  -- schedulable again, clears both notes of the drain, leaves the MachineDeployment alone, and ends
  -- without an error, whether or not the node could be made schedulable. Conditions: horizontal
  -- scaling is enabled, and the cluster and its pending pods could be read.
  pub reconcile_horizontal_times_out :
      (env : Env) (spec : ScalingPolicySpec) (cluster_name : String)
      (util : Option (UtilizationResult F)) (plan : Option (Plan F)) (p : Pass) (start : ℤ)
      (pods : List Pod)
      → spec.horizontal.enabled ≡ true
      → env.has_workload_clients ≡ true
      → env.connect (client_for_cluster cluster_name p.deployment.namespace ∷ p.calls) ≡ ok tt
      → env.pending_pods (asked cluster_name p).calls ≡ ok pods
      → p.status.draining_node ≢ ""
      → p.status.draining_started_at ≡ some start
      → ltb_ℤ default_drain_timeout (since (env.clock (asked cluster_name p).calls) start) ≡ true
      → let (q, exit) = reconcile_horizontal env spec cluster_name util plan p in
        (exit ≡ done)
        × (q.status.draining_node ≡ "")
        × (q.status.draining_started_at ≡ none)
        × (q.deployment ≡ p.deployment)
        × (q.calls
            ≡ record_event "DrainTimeout"
              ∷ set_condition horizontal_scaling false drain_timeout
              ∷ uncordon_node p.status.draining_node
              ∷ (asked cluster_name p).calls)
  unfolding continue_drain
  reconcile_horizontal_times_out env spec cluster_name util plan p start pods on clients reached
        listed busy started late =
      rw
        (reconcile_horizontal-continue_drain env spec cluster_name util plan p pods on clients
          reached listed busy)
        (ground arith)

  -- A pass that finds the draining node empty and no pending pod patches the replicas of the
  -- MachineDeployment, once, to one fewer, or to the minimum where that is more, notes that number in the
  -- status and clears the note of the draining node. It does so in a dry run too. Conditions: horizontal
  -- scaling is enabled, every call succeeds, and the drain is not late.
  pub reconcile_horizontal_finishes :
      (env : Env) (spec : ScalingPolicySpec) (cluster_name : String)
      (util : Option (UtilizationResult F)) (plan : Option (Plan F)) (p : Pass) (start : ℤ)
      (pods : List Pod)
      → spec.horizontal.enabled ≡ true
      → env.has_workload_clients ≡ true
      → env.connect (client_for_cluster cluster_name p.deployment.namespace ∷ p.calls) ≡ ok tt
      → env.pending_pods (asked cluster_name p).calls ≡ ok pods
      → env.pod_count (counting cluster_name p) ≡ ok (pos 0)
      → env.pending_pods (list_pending_pods ∷ counting cluster_name p) ≡ ok []
      → ((calls : Calls) → env.patched calls ≡ ok tt)
      → p.status.draining_node ≢ ""
      → p.status.draining_started_at ≡ some start
      → ltb_ℤ default_drain_timeout (since (env.clock (asked cluster_name p).calls) start) ≡ false
      → IsReduced
          (min_replicas_of spec.horizontal)
          (current_replicas_of p.deployment)
          p
          (reconcile_horizontal env spec cluster_name util plan p)
  reconcile_horizontal_finishes env spec cluster_name util plan p start pods on clients reached
        listed left settled patched busy started late =
      rw
        (reconcile_horizontal-continue_drain env spec cluster_name util plan p pods on clients
          reached listed busy)
        (continue_drain-IsReduced env _ _ start _ patched left settled started late)
