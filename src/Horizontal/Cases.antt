-- ===== src/Horizontal/Cases.antt =====
-- The ways through `reconcile_horizontal`: a predicate on outcomes holds of the whole if it holds of
-- each part where the pass comes to it.
use vpsie_k8s_capi_autoscale.Base.{
  ℤ, pos, ltb_ℤ, ◌≡◌, ◌≢◌, inl, inr, ◌&&◌, String, true, false, Option, List, [], ◌∷◌, length, ◌==◌,
  string_eq, ==_true, ==_false, Bool-cases, Result-cases,
}
use vpsie_k8s_capi_autoscale.Cluster.{Pod}
use vpsie_k8s_capi_autoscale.Float.{Float64}
use vpsie_k8s_capi_autoscale.Plan.{Plan}
use vpsie_k8s_capi_autoscale.Policy.{ScalingPolicySpec}
use vpsie_k8s_capi_autoscale.Utilization.Thresholds.{UtilizationResult}
use vpsie_k8s_capi_autoscale.World.{Env, client_for_cluster, list_pending_pods}
use vpsie_k8s_capi_autoscale.Horizontal.Pass.{
  Pass, Outcome, Exit, done, call, current_replicas_of, ready_replicas_of, min_replicas_of,
  max_replicas_of,
}
use vpsie_k8s_capi_autoscale.Horizontal.Drain.{continue_drain}
use vpsie_k8s_capi_autoscale.Horizontal.Rollout.{await_rollout, forget_template}
use vpsie_k8s_capi_autoscale.Horizontal.ScaleUp.{scale_up}
use vpsie_k8s_capi_autoscale.Horizontal.ScaleDown.{scale_down}
use vpsie_k8s_capi_autoscale.Horizontal.Reconcile.{
  scale, with_pending, with_client, reconcile_horizontal, relevant_pods,
}

-- The pass with the number of pending pods noted.
abbrev pub counted : List Pod → Pass → Pass
counted pods p = record p { status = record (p.status) { pending_pods = pos (length pods) } }

-- The pass after the two first calls.
abbrev pub asked : String → Pass → Pass
asked cluster_name p =
    call list_pending_pods (call (client_for_cluster cluster_name p.deployment.namespace) p)

module _ {ℓ} {F : Type 0} ⦃f : Float64 F⦄ (P : Outcome → Type ℓ) where
  scale_cases :
      (env : Env) (spec : ScalingPolicySpec) (util : Option (UtilizationResult F)) (pods : List Pod)
      (current : ℤ) (p : Pass)
      → P (scale_down env spec util (min_replicas_of spec.horizontal) current (forget_template p))
      → (pods ≢ []
          → P (
              scale_up env spec.dry_run
                (max_replicas_of spec.horizontal)
                current
                (forget_template p)))
      → P (scale env spec util pods current p)
  unfolding scale
  scale_cases env spec util [] current p down up = down
  scale_cases env spec util (pod ∷ pods) current p down up = up (λ e. cc)

  pub with_pending_cases :
      (env : Env) (spec : ScalingPolicySpec) (util : Option (UtilizationResult F)) (pods : List Pod)
      (p : Pass)
      → let q = counted pods p in
        let current = current_replicas_of p.deployment in
        (p.status.draining_node ≢ ""
          → P (continue_drain env (min_replicas_of spec.horizontal) current q))
        → (p.status.draining_node ≡ ""
            → ltb_ℤ (ready_replicas_of p.deployment) current ≡ true
            → P (await_rollout env q))
        → (p.status.draining_node ≡ ""
            → ltb_ℤ (ready_replicas_of p.deployment) current ≡ false
            → P (
                scale_down env spec util
                  (min_replicas_of spec.horizontal)
                  current
                  (forget_template q)))
        → (p.status.draining_node ≡ ""
            → ltb_ℤ (ready_replicas_of p.deployment) current ≡ false
            → pods ≢ []
            → P (
                scale_up env spec.dry_run
                  (max_replicas_of spec.horizontal)
                  current
                  (forget_template q)))
        → P (with_pending env spec util pods p)
  unfolding with_pending
  with_pending_cases env spec util pods p drains waits down up =
      let current = current_replicas_of p.deployment in
      elim (Bool-cases (p.status.draining_node == "")) [
        | inr busy ↦ rw (busy, with_pending) (drains (==_false _ _ busy))
        | inl idle ↦
            let none_drains = ==_true p.status.draining_node "" idle in
            elim (Bool-cases (ltb_ℤ (ready_replicas_of p.deployment) current)) [
              | inl rolling ↦ rw (idle, rolling, with_pending) (waits none_drains rolling)
              | inr settled ↦
                  rw (idle, settled, with_pending)
                    (scale_cases env spec util pods current (counted pods p)
                      (down none_drains settled) (up none_drains settled))
            ]
      ]

  with_client_cases :
      (env : Env) (spec : ScalingPolicySpec) (cluster_name : String)
      (util : Option (UtilizationResult F)) (plan : Option (Plan F)) (p : Pass)
      → ((e : Exit) → P (call (client_for_cluster cluster_name p.deployment.namespace) p, e))
      → ((e : Exit) → P (asked cluster_name p, e))
      → ((pods : List Pod)
          → P (with_pending env spec util (relevant_pods spec plan pods) (asked cluster_name p)))
      → P (with_client env spec cluster_name util plan p)
  unfolding with_client
  with_client_cases env spec cluster_name util plan p unreachable unlisted go =
      let first = client_for_cluster cluster_name p.deployment.namespace ∷ p.calls in
      elim (Result-cases (env.connect first)) [
        | inr (_, e) ↦ rw (e, with_client) (unreachable _)
        | inl (_, connected) ↦ elim (Result-cases (env.pending_pods (list_pending_pods ∷ first))) [
          | inr (_, e) ↦ rw (connected, e, with_client) (unlisted _)
          | inl (pods, e) ↦ rw (connected, e, with_client) (go pods)
        ]
      ]

  pub reconcile_horizontal_cases :
      (env : Env) (spec : ScalingPolicySpec) (cluster_name : String)
      (util : Option (UtilizationResult F)) (plan : Option (Plan F)) (p : Pass)
      → P (p, done)
      → ((e : Exit) → P (call (client_for_cluster cluster_name p.deployment.namespace) p, e))
      → ((e : Exit) → P (asked cluster_name p, e))
      → ((pods : List Pod)
          → P (with_pending env spec util (relevant_pods spec plan pods) (asked cluster_name p)))
      → P (reconcile_horizontal env spec cluster_name util plan p)
  unfolding reconcile_horizontal
  reconcile_horizontal_cases env spec cluster_name util plan p off unreachable unlisted go =
      elim (Bool-cases (spec.horizontal.enabled && env.has_workload_clients)) [
        | inr disabled ↦ rw (disabled, reconcile_horizontal) off
        | inl enabled ↦
            rw (enabled, reconcile_horizontal)
              (with_client_cases env spec cluster_name util plan p unreachable unlisted go)
      ]
