-- ===== src/Program.antt =====
-- cmd/main.go runs the reconciler of internal/controller/scalingpolicy_controller.go and the
-- rebalancer of internal/controller/rebalancer.go over the same pricing caches. A run is any sequence
-- of whole reconciliations and whole rebalancing cycles: the ticks of `Start` and the requests of the
-- work queue come in any order.
pub mod DryRun
pub mod Bound
use Prim.Native.Char.{Char}
use vpsie_k8s_capi_autoscale.Base.{
  ◌≡◌, String, Option, none, some, List, [], ◌∷◌, ◌++◌, Dict, ok, err, true, if◌then◌else◌,
}
use vpsie_k8s_capi_autoscale.Float.{Float64}
use vpsie_k8s_capi_autoscale.World.{Calls, Env, list_policies}
use vpsie_k8s_capi_autoscale.Policy.{ScalingPolicyStatus}
use vpsie_k8s_capi_autoscale.Horizontal.Pass.{panicked}
use vpsie_k8s_capi_autoscale.NodePool.Groups.{PlanGroup}
use vpsie_k8s_capi_autoscale.Controller.{Policy, Objects, Caches}
use vpsie_k8s_capi_autoscale.Controller.Reconcile.{reconcile}
use vpsie_k8s_capi_autoscale.Rebalancer.{rebalance_policy}
use vpsie_k8s_capi_autoscale.Rebalancer.Cycle.{run_cycle}

-- The caches in memory, the calls that were made, and the statuses that a policy may be read with: those
-- of the start, and those that the program has held since when it came to write them.
pub record State (F : Type 0) : Type 0 where
  pub caches : Caches F
  pub calls : Calls
  pub statuses : List ScalingPolicyStatus

module _ {F K : Type 0} ⦃f : Float64 F⦄ (lower_rune : Char → Char) (env : Env)
    (objects : Objects F K) where
  -- The statuses of the policies that `rebalance_policies` goes through.
  unfoldable pub rebalanced_statuses : List (Policy F) → Caches F → Calls → List ScalingPolicyStatus
  rebalanced_statuses [] caches calls = []
  rebalanced_statuses (policy ∷ policies) caches calls =
      let r = rebalance_policy lower_rune env objects policy caches calls in
      let skipped = rebalanced_statuses policies caches calls in
      let rest = rebalanced_statuses policies r.caches r.calls in
      if policy.spec.rebalancing.enabled
      then elim r.exit [ panicked ↦ [] | _ ↦ r.policy.status ∷ rest ]
      else skipped

  unfoldable pub cycle_statuses : Caches F → Calls → List ScalingPolicyStatus
  unfolding rebalanced_statuses
  cycle_statuses caches calls =
      let calls = list_policies "" ∷ calls in
      elim (objects.policies calls) [
        | err _ ↦ []
        | ok policies ↦ rebalanced_statuses policies caches calls
      ]

-- The status of the policy at the end of a reconciliation, if there is one.
abbrev pub ended_statuses : {F : Type 0} → Option (Policy F) → List ScalingPolicyStatus
ended_statuses none = []
ended_statuses (some policy) = policy.status ∷ []

module _ {F K : Type 0} ⦃f : Float64 F⦄ (lower_rune : Char → Char)
    (range : Dict (PlanGroup F) → List (String × PlanGroup F)) (env : Env)
    (objects : Objects F K) where
  unfoldable pub after_request : String → String → State F → State F
  after_request namespace name s =
      let ended = reconcile lower_rune range env objects namespace name s.caches s.calls in
      record {
        caches = ended.caches;
        calls = ended.calls;
        statuses = ended_statuses ended.policy ++ s.statuses;
      }

  unfoldable pub after_tick : State F → State F
  unfolding cycle_statuses
  after_tick s =
      let (caches, calls, _) = run_cycle lower_rune env objects s.caches s.calls in
      record {
        caches = caches;
        calls = calls;
        statuses = cycle_statuses lower_rune env objects s.caches s.calls ++ s.statuses;
      }

  pub data Step (s t : State F) : Type 0 where
    request : (namespace name : String) → t ≡ after_request namespace name s → Step s t
    tick : t ≡ after_tick s → Step s t

  pub data Reach (s : State F) : State F → Type 0 where
    here : Reach s s
    next : {t u : State F} → Reach s t → Step t u → Reach s u
