-- ===== src/Rebalancer/Cycle.antt =====
-- internal/controller/rebalancer.go: `runCycle`, over all policies.
use Prim.Native.Char.{Char}
use vpsie_k8s_capi_autoscale.Base.{List, [], ◌∷◌, ok, err, string_eq, if◌then◌else◌}
use vpsie_k8s_capi_autoscale.Float.{Float64}
use vpsie_k8s_capi_autoscale.World.{Calls, Env, list_policies}
use vpsie_k8s_capi_autoscale.Horizontal.Pass.{Exit, done, panicked}
use vpsie_k8s_capi_autoscale.Controller.{Policy, Objects, Caches}
use vpsie_k8s_capi_autoscale.Rebalancer.{rebalance_policy}

module _ {F K : Type 0} ⦃f : Float64 F⦄ (lower_rune : Char → Char) (env : Env)
    (objects : Objects F K) where
  -- The caches and the calls; the errors are only logged, a panic ends the program.
  unfoldable pub rebalance_policies : List (Policy F) → Caches F → Calls → Caches F × Calls × Exit
  unfolding rebalance_policy
  rebalance_policies [] caches calls = (caches, calls, done)
  rebalance_policies (policy ∷ policies) caches calls =
      let r = rebalance_policy lower_rune env objects policy caches calls in
      let skipped = rebalance_policies policies caches calls in
      let rest = rebalance_policies policies r.caches r.calls in
      if policy.spec.rebalancing.enabled
      then elim r.exit [ panicked ↦ (r.caches, r.calls, panicked) | _ ↦ rest ]
      else skipped

  unfoldable pub run_cycle : Caches F → Calls → Caches F × Calls × Exit
  unfolding rebalance_policies
  run_cycle caches calls =
      let calls = list_policies "" ∷ calls in
      elim (objects.policies calls) [
        | err _ ↦ (caches, calls, done)
        | ok policies ↦ rebalance_policies policies caches calls
      ]
