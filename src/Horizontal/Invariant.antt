-- ===== src/Horizontal/Invariant.antt =====
-- What a pass keeps between the status and the drain, and what it leaves in the cluster.
use vpsie_k8s_capi_autoscale.Base.{
  ℤ, ◌≡◌, ◌↔◌, ◌⊎◌, inl, String, Bool, Option, none, some, List, [], ◌∷◌, arith, string_eq,
}
use vpsie_k8s_capi_autoscale.Float.{Float64}
use vpsie_k8s_capi_autoscale.Plan.{Plan}
use vpsie_k8s_capi_autoscale.Policy.{ScalingPolicySpec, ScalingPolicyStatus}
use vpsie_k8s_capi_autoscale.Utilization.Thresholds.{UtilizationResult}
use vpsie_k8s_capi_autoscale.World.{Calls, Env, cordon_node}
use vpsie_k8s_capi_autoscale.Horizontal.Pass.{Pass, Outcome, done}
use vpsie_k8s_capi_autoscale.Horizontal.Drain.{check_pending, finish_drain, continue_drain}
use vpsie_k8s_capi_autoscale.Horizontal.Rollout.{await_rollout}
use vpsie_k8s_capi_autoscale.Horizontal.ScaleUp.{scale_up}
use vpsie_k8s_capi_autoscale.Horizontal.ScaleDown.{scale_down}
use vpsie_k8s_capi_autoscale.Horizontal.Reconcile.{reconcile_horizontal}
use vpsie_k8s_capi_autoscale.Horizontal.Cases.{
  asked, with_pending_cases, reconcile_horizontal_cases,
}

-- A node is noted as draining exactly when the start of its drain is.
abbrev pub IsConsistent : ScalingPolicyStatus → Type 0
IsConsistent s = (s.draining_node ≡ "") ↔ (s.draining_started_at ≡ none)

continue_drain-IsConsistent :
    (env : Env) (min current : ℤ) (p : Pass)
    → IsConsistent p.status
    → IsConsistent (continue_drain env min current p).0.status
unfolding continue_drain check_pending finish_drain
continue_drain-IsConsistent env min current p h = ground arith

await_rollout-IsConsistent :
    (env : Env) (p : Pass) → IsConsistent p.status → IsConsistent (await_rollout env p).0.status
unfolding await_rollout
await_rollout-IsConsistent env p h = ground arith

scale_up-IsConsistent :
    (env : Env) (is_dry : Bool) (max current : ℤ) (p : Pass)
    → IsConsistent p.status
    → IsConsistent (scale_up env is_dry max current p).0.status
unfolding scale_up
scale_up-IsConsistent env is_dry max current p h = ground arith

-- The nodes that calls cordon, the newest first.
abbrev pub cordoned : Calls → List String
cordoned [] = []
cordoned (cordon_node n ∷ calls) = n ∷ cordoned calls
cordoned (_ ∷ calls) = cordoned calls

-- At most one node was cordoned, and it is noted as draining.
abbrev pub Tracks : Pass → Type 0
Tracks p = (cordoned p.calls ≡ []) ⊎ (cordoned p.calls ≡ p.status.draining_node ∷ [])

continue_drain-Tracks :
    (env : Env) (min current : ℤ) (p : Pass)
    → cordoned p.calls ≡ []
    → (continue_drain env min current p).1 ≡ done
    → Tracks (continue_drain env min current p).0
unfolding continue_drain check_pending finish_drain
continue_drain-Tracks env min current p h e = ground arith

await_rollout-Tracks :
    (env : Env) (p : Pass)
    → cordoned p.calls ≡ []
    → (await_rollout env p).1 ≡ done
    → Tracks (await_rollout env p).0
unfolding await_rollout
await_rollout-Tracks env p h e = ground arith

scale_up-Tracks :
    (env : Env) (is_dry : Bool) (max current : ℤ) (p : Pass)
    → cordoned p.calls ≡ []
    → (scale_up env is_dry max current p).1 ≡ done
    → Tracks (scale_up env is_dry max current p).0
unfolding scale_up
scale_up-Tracks env is_dry max current p h e = ground arith

module _ {F : Type 0} ⦃f : Float64 F⦄ where
  scale_down-IsConsistent :
      (env : Env) (spec : ScalingPolicySpec) (util : Option (UtilizationResult F)) (min current : ℤ)
      (p : Pass)
      → IsConsistent p.status
      → IsConsistent (scale_down env spec util min current p).0.status
  unfolding scale_down
  scale_down-IsConsistent env spec util min current p h = ground arith

  -- A pass keeps the two notes of a drain together: after it, as before it, the draining node is
  -- empty exactly when there is no start of a drain.
  pub reconcile_horizontal-IsConsistent :
      (env : Env) (spec : ScalingPolicySpec) (cluster_name : String)
      (util : Option (UtilizationResult F)) (plan : Option (Plan F)) (p : Pass)
      → IsConsistent p.status
      → IsConsistent (reconcile_horizontal env spec cluster_name util plan p).0.status
  reconcile_horizontal-IsConsistent env spec cluster_name util plan p h =
      let P : Outcome → Type 0 = λ o. IsConsistent o.0.status in
      reconcile_horizontal_cases P env spec cluster_name util plan p h (λ _. h) (λ _. h)
        λ pods.
          with_pending_cases P env spec util _ (asked cluster_name p)
            (λ _. continue_drain-IsConsistent env _ _ _ h)
            (λ _ _. await_rollout-IsConsistent env _ h)
            (λ _ _. scale_down-IsConsistent env spec util _ _ _ h)
            (λ _ _ _. scale_up-IsConsistent env spec.dry_run _ _ _ h)

  scale_down-Tracks :
      (env : Env) (spec : ScalingPolicySpec) (util : Option (UtilizationResult F)) (min current : ℤ)
      (p : Pass)
      → cordoned p.calls ≡ []
      → (scale_down env spec util min current p).1 ≡ done
      → Tracks (scale_down env spec util min current p).0
  unfolding scale_down
  scale_down-Tracks env spec none min current p h e = ground arith
  scale_down-Tracks env spec (some u) min current p h e = ground arith

  -- If a pass ends without an error, it has cordoned no node, or just the one that the status notes
  -- as draining afterwards, so that a later pass can finish or undo the drain. Condition: no call was
  -- made before the pass.
  pub reconcile_horizontal-Tracks :
      (env : Env) (spec : ScalingPolicySpec) (cluster_name : String)
      (util : Option (UtilizationResult F)) (plan : Option (Plan F)) (p : Pass)
      → p.calls ≡ []
      → (reconcile_horizontal env spec cluster_name util plan p).1 ≡ done
      → Tracks (reconcile_horizontal env spec cluster_name util plan p).0
  reconcile_horizontal-Tracks env spec cluster_name util plan p fresh ended =
      let P : Outcome → Type 0 = λ o. o.1 ≡ done → Tracks o.0 in
      let h : cordoned p.calls ≡ [] = rw fresh in
      reconcile_horizontal_cases P env spec cluster_name util plan p (λ _. inl h) (λ _ _. inl h)
        (λ _ _. inl h)
        (λ pods.
          with_pending_cases P env spec util _ (asked cluster_name p)
            (λ _. continue_drain-Tracks env _ _ _ h) (λ _ _. await_rollout-Tracks env _ h)
            (λ _ _. scale_down-Tracks env spec util _ _ _ h)
            (λ _ _ _. scale_up-Tracks env spec.dry_run _ _ _ h))
        ended
