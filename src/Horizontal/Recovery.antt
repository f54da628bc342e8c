-- ===== src/Horizontal/Recovery.antt =====
-- What becomes of a node that a pass of `reconcileHorizontal`
-- (internal/controller/scalingpolicy_controller.go) has cordoned.
use mathlib.Core.Path.{subst}
use vpsie_k8s_capi_autoscale.Base.{
  ℤ, ltb_ℤ, ◌≡◌, ◌≢◌, ◌∙◌, ap, sym, refl, ◌⊎◌, inl, inr, String, Bool, true, false, not, Option,
  none, some, List, [], ◌∷◌, keep, ok, err, Result, Option-cases, Bool-cases, cond_cases, ==_false,
  leb_ℤ, arith, since, ◌==◌, string_eq,
}
use vpsie_k8s_capi_autoscale.Cluster.{Pod}
use vpsie_k8s_capi_autoscale.Float.{Float64}
use vpsie_k8s_capi_autoscale.Plan.{Plan}
use vpsie_k8s_capi_autoscale.Policy.{ScalingPolicySpec, ScalingPolicyStatus}
use vpsie_k8s_capi_autoscale.Utilization.Thresholds.{UtilizationResult}
use vpsie_k8s_capi_autoscale.World.{
  Calls, Env, client_for_cluster, cordon_node, uncordon_node, drain_node,
}
use vpsie_k8s_capi_autoscale.Horizontal.Pass.{Pass, Outcome, done}
use vpsie_k8s_capi_autoscale.Horizontal.Drain.{reduced, default_drain_timeout}
use vpsie_k8s_capi_autoscale.Horizontal.Rollout.{await_rollout}
use vpsie_k8s_capi_autoscale.Horizontal.ScaleUp.{scale_up}
use vpsie_k8s_capi_autoscale.Horizontal.ScaleDown.{
  begin_drain, start_scale_down, remove_replica, scale_down, least_utilized_node, is_stabilizing,
  is_underutilized, nodes_fit,
}
use vpsie_k8s_capi_autoscale.Horizontal.Reconcile.{reconcile_horizontal}
use vpsie_k8s_capi_autoscale.Horizontal.Cases.{
  asked, with_pending_cases, reconcile_horizontal_cases,
}
use vpsie_k8s_capi_autoscale.Horizontal.Invariant.{
  IsConsistent, cordoned, reconcile_horizontal-IsConsistent, reconcile_horizontal-Tracks,
}
use vpsie_k8s_capi_autoscale.Horizontal.DrainEnds.{resizes, reconcile_horizontal_times_out}

-- An error, of whatever text.
abbrev pub IsFailed : {A : Type 0} → Result A → Type 0
IsFailed {A} r = (e : String) × (r ≡ err e)

-- The nodes that calls ask to make schedulable again, the newest first.
abbrev pub uncordoned : Calls → List String
uncordoned [] = []
uncordoned (uncordon_node n ∷ calls) = n ∷ uncordoned calls
uncordoned (_ ∷ calls) = uncordoned calls

-- The nodes that calls leave cordoned: what is uncordoned after it was cordoned is not.
abbrev pub unschedulable : Calls → List String
unschedulable [] = []
unschedulable (cordon_node n ∷ calls) = n ∷ unschedulable calls
unschedulable (uncordon_node n ∷ calls) = keep (λ m. not (m == n)) (unschedulable calls)
unschedulable (_ ∷ calls) = unschedulable calls

module _ {F : Type 0} ⦃f : Float64 F⦄ where
  -- A drain that a pass has begun is taken back by a pass that finds it older than five minutes: if the
  -- first pass cordoned a node and ended without an error, the later one asks to make that very node
  -- schedulable again, and no other, notes no drain any more, patches no replicas, leaves the
  -- MachineDeployment in memory alone and ends without an error, whether or not the node could be made
  -- schedulable. Conditions: the status was consistent and no call was made before the first pass; the
  -- later pass sees the status that the first has left, horizontal scaling is enabled in it, and the
  -- cluster and its pending pods can be read.
  pub reconcile_horizontal_recovers :
      (first later : Env) (spec spec' : ScalingPolicySpec) (cluster_name cluster_name' : String)
      (util util' : Option (UtilizationResult F)) (plan plan' : Option (Plan F)) (p r : Pass)
      (n : String) (pods : List Pod)
      → let (q, exit) = reconcile_horizontal first spec cluster_name util plan p in
        p.calls ≡ []
        → IsConsistent p.status
        → exit ≡ done
        → cordoned q.calls ≡ n ∷ []
        → n ≢ ""
        → r.status ≡ q.status
        → spec'.horizontal.enabled ≡ true
        → later.has_workload_clients ≡ true
        → later.connect (client_for_cluster cluster_name' r.deployment.namespace ∷ r.calls) ≡ ok tt
        → later.pending_pods (asked cluster_name' r).calls ≡ ok pods
        → ((start : ℤ)
            → r.status.draining_started_at ≡ some start
            → ltb_ℤ default_drain_timeout (since (later.clock (asked cluster_name' r).calls) start)
              ≡ true)
        → let (s, end) = reconcile_horizontal later spec' cluster_name' util' plan' r in
          (end ≡ done)
          × (s.status.draining_node ≡ "")
          × (s.status.draining_started_at ≡ none)
          × (s.deployment ≡ r.deployment)
          × (uncordoned s.calls ≡ n ∷ uncordoned r.calls)
          × (resizes s.calls ≡ resizes r.calls)
  reconcile_horizontal_recovers first later spec spec' cluster_name cluster_name' util util' plan
        plan' p r n pods fresh tied ended noted named seen on clients reached listed late =
      let (q, exit) = reconcile_horizontal first spec cluster_name util plan p in
      let (if_idle, if_unstarted) : IsConsistent r.status =
        subst IsConsistent (sym seen)
          (reconcile_horizontal-IsConsistent first spec cluster_name util plan p tied) in
      let busy : r.status.draining_node ≡ n =
        elim (reconcile_horizontal-Tracks first spec cluster_name util plan p fresh ended) [
          | inl nothing ↦ absurd (ground arith)
          | inr tracked ↦ ground arith
        ] in
      elim (Option-cases r.status.draining_started_at) [
        | inl unstarted ↦ absurd (named (sym busy ∙ if_unstarted unstarted))
        | inr (start, started) ↦
            let (a, b, c, d, calls) =
              reconcile_horizontal_times_out later spec' cluster_name' util' plan' r start pods on
                clients reached listed (λ e. named (sym busy ∙ e)) started (late start started) in
            (a, b, c, d, rw calls (ap (λ m. m ∷ uncordoned r.calls) busy), rw calls refl)
      ]

-- A node is left cordoned that the status does not note, and the pass ends with an error.
abbrev pub Leaks : Outcome → Type 0
Leaks (q, exit) =
    (n : String) × (unschedulable q.calls ≡ n ∷ [])
    × (n ≢ "")
    × (q.status.draining_node ≡ "")
    × (exit ≢ done)

-- No node was cordoned, or one that leaks.
abbrev pub IsLeaky : Outcome → Type 0
IsLeaky o = (cordoned o.0.calls ≡ []) ⊎ Leaks o

unschedulable-cordoned : (calls : Calls) → cordoned calls ≡ [] → unschedulable calls ≡ []
unschedulable-cordoned [] h = refl
unschedulable-cordoned (c ∷ calls) h = let rest = unschedulable-cordoned calls in ground arith

begin_drain-Leaks :
    (env : Env) (target : String) (p : Pass) (e : String)
    → env.cordoned (cordon_node target ∷ p.calls) ≡ ok tt
    → env.drained (drain_node target ∷ cordon_node target ∷ p.calls) ≡ err e
    → target ≢ ""
    → p.status.draining_node ≡ ""
    → unschedulable p.calls ≡ []
    → Leaks (begin_drain env target p)
unfolding begin_drain
begin_drain-Leaks env target p e c d named idle h =
    (target, ground arith, named, ground arith, λ ended. ground arith)

await_rollout-IsLeaky :
    (env : Env) (p : Pass) → cordoned p.calls ≡ [] → IsLeaky (await_rollout env p)
unfolding await_rollout
await_rollout-IsLeaky env p h = inl (ground arith)

scale_up-IsLeaky :
    (env : Env) (is_dry : Bool) (max current : ℤ) (p : Pass)
    → cordoned p.calls ≡ []
    → IsLeaky (scale_up env is_dry max current p)
unfolding scale_up
scale_up-IsLeaky env is_dry max current p h = inl (ground arith)

await_rollout-uncordoned :
    (env : Env) (p : Pass) → uncordoned (await_rollout env p).0.calls ≡ uncordoned p.calls
unfolding await_rollout
await_rollout-uncordoned env p = ground arith

scale_up-uncordoned :
    (env : Env) (is_dry : Bool) (max current : ℤ) (p : Pass)
    → uncordoned (scale_up env is_dry max current p).0.calls ≡ uncordoned p.calls
unfolding scale_up
scale_up-uncordoned env is_dry max current p = ground arith

scale_down-uncordoned :
    {F : Type 0} ⦃f : Float64 F⦄ (env : Env) (spec : ScalingPolicySpec)
    (util : Option (UtilizationResult F)) (min current : ℤ) (p : Pass)
    → uncordoned (scale_down env spec util min current p).0.calls ≡ uncordoned p.calls
unfolding scale_down
scale_down-uncordoned env spec none min current p = ground arith
scale_down-uncordoned env spec (some u) min current p = ground arith

module _ {F : Type 0} ⦃f : Float64 F⦄ where
  start_scale_down-IsLeaky :
      (env : Env) (is_dry : Bool) (util : UtilizationResult F) (desired : ℤ) (p : Pass)
      → ((calls : Calls) → env.cordoned calls ≡ ok tt)
      → ((calls : Calls) → IsFailed (env.drained calls))
      → p.status.draining_node ≡ ""
      → cordoned p.calls ≡ []
      → IsLeaky (start_scale_down env is_dry util desired p)
  unfolding start_scale_down
  start_scale_down-IsLeaky env is_dry util desired p cordons stuck idle h =
      let target = least_utilized_node F util.nodes in
      elim (Bool-cases is_dry) [
        | inl dry ↦ inl (rw (dry, start_scale_down) h)
        | inr wet ↦ elim (Bool-cases (target == "")) [
          | inl unnamed ↦ inl (rw (wet, unnamed, start_scale_down) h)
          | inr named ↦
              let (e, failing) = stuck (drain_node target ∷ cordon_node target ∷ p.calls) in
              rw (wet, named, start_scale_down)
                (inr (
                  begin_drain-Leaks env target
                    (record p { status = record (p.status) { desired_replicas = desired } }) e
                    (cordons _) failing (==_false target "" named) idle
                    (unschedulable-cordoned p.calls h)))
        ]
      ]

  scale_down-IsLeaky :
      (env : Env) (spec : ScalingPolicySpec) (util : Option (UtilizationResult F)) (min current : ℤ)
      (p : Pass)
      → ((calls : Calls) → env.cordoned calls ≡ ok tt)
      → ((calls : Calls) → IsFailed (env.drained calls))
      → p.status.draining_node ≡ ""
      → cordoned p.calls ≡ []
      → IsLeaky (scale_down env spec util min current p)
  unfolding scale_down remove_replica
  scale_down-IsLeaky env spec none min current p cordons stuck idle h = inl (ground arith)
  scale_down-IsLeaky env spec (some u) min current p cordons stuck idle h =
      let begun =
        start_scale_down-IsLeaky env spec.dry_run u (reduced min current) p cordons stuck idle h in
      cond_cases IsLeaky (leb_ℤ current min) (inl h) (
        cond_cases IsLeaky (is_stabilizing env spec p) (inl h) (
          cond_cases IsLeaky (is_underutilized spec u)
            (elim (Option-cases (nodes_fit F env u.nodes (reduced min current))) [
              | inl crashes ↦ inl (rw (crashes, remove_replica) h)
              | inr (true, fits) ↦ rw (fits, remove_replica) begun
              | inr (false, fits) ↦ inl (rw (fits, remove_replica) h)
            ])
            (inl h)))

  -- Without a drain that is noted, a pass makes no node schedulable again.
  reconcile_horizontal-uncordoned :
      (env : Env) (spec : ScalingPolicySpec) (cluster_name : String)
      (util : Option (UtilizationResult F)) (plan : Option (Plan F)) (p : Pass)
      → p.status.draining_node ≡ ""
      → uncordoned (reconcile_horizontal env spec cluster_name util plan p).0.calls
        ≡ uncordoned p.calls
  reconcile_horizontal-uncordoned env spec cluster_name util plan p idle =
      let P : Outcome → Type 0 = λ o. uncordoned o.0.calls ≡ uncordoned p.calls in
      reconcile_horizontal_cases P env spec cluster_name util plan p refl (λ _. refl) (λ _. refl)
        λ pods.
          with_pending_cases P env spec util _ (asked cluster_name p) (λ busy. absurd (busy idle))
            (λ _ _. await_rollout-uncordoned env _)
            (λ _ _. scale_down-uncordoned env spec util _ _ _)
            (λ _ _ _. scale_up-uncordoned env spec.dry_run _ _ _)

  -- When drains fail, a node that a pass cordons is lost: the pass ends with an error and leaves exactly
  -- one node cordoned, the status does not note it, and the next pass, whatever its spec, its cluster and
  -- its load, makes no node schedulable again. Conditions: the pass does cordon a node, cordoning
  -- succeeds and every drain fails, no drain was noted and no call was made before, and the next pass
  -- sees the status that the pass has left.
  pub reconcile_horizontal-Leaks :
      (env next : Env) (spec spec' : ScalingPolicySpec) (cluster_name cluster_name' : String)
      (util util' : Option (UtilizationResult F)) (plan plan' : Option (Plan F)) (p r : Pass)
      → let (q, exit) = reconcile_horizontal env spec cluster_name util plan p in
        p.calls ≡ []
        → p.status.draining_node ≡ ""
        → ((calls : Calls) → env.cordoned calls ≡ ok tt)
        → ((calls : Calls) → IsFailed (env.drained calls))
        → cordoned q.calls ≢ []
        → r.status ≡ q.status
        → Leaks (q, exit)
          × (uncordoned (reconcile_horizontal next spec' cluster_name' util' plan' r).0.calls
              ≡ uncordoned r.calls)
  reconcile_horizontal-Leaks env next spec spec' cluster_name cluster_name' util util' plan plan' p
        r fresh idle cordons stuck cordons_one seen =
      let h : cordoned p.calls ≡ [] = rw fresh in
      let leaky : IsLeaky (reconcile_horizontal env spec cluster_name util plan p) =
        reconcile_horizontal_cases IsLeaky env spec cluster_name util plan p (inl h) (λ _. inl h)
          (λ _. inl h)
          (λ pods.
            with_pending_cases IsLeaky env spec util _ (asked cluster_name p)
              (λ busy. absurd (busy idle)) (λ _ _. await_rollout-IsLeaky env _ h)
              (λ _ _. scale_down-IsLeaky env spec util _ _ _ cordons stuck idle h)
              (λ _ _ _. scale_up-IsLeaky env spec.dry_run _ _ _ h)) in
      elim leaky [
        | inl quiet ↦ absurd (cordons_one quiet)
        | inr leaks ↦
            let (n, left, named, unnoted, fails) = leaks in
            (
              leaks,
              reconcile_horizontal-uncordoned next spec' cluster_name' util' plan' r
                  (ap (λ s. ScalingPolicyStatus.draining_node s) seen ∙ unnoted),
            )
      ]
