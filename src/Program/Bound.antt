-- ===== src/Program/Bound.antt =====
-- The pricing caches along a whole run of the program, cmd/main.go.
use Prim.Native.Char.{Char}
use vpsie_k8s_capi_autoscale.Base.{String, List, Dict}
use vpsie_k8s_capi_autoscale.Float.{Float64}
use vpsie_k8s_capi_autoscale.World.{Env}
use vpsie_k8s_capi_autoscale.NodePool.Groups.{PlanGroup}
use vpsie_k8s_capi_autoscale.Controller.{Objects}
use vpsie_k8s_capi_autoscale.Controller.Bound.{IsBound}
use vpsie_k8s_capi_autoscale.Controller.Stale.{reconcile-IsBound}
use vpsie_k8s_capi_autoscale.Rebalancer.Bound.{run_cycle-IsBound}
use vpsie_k8s_capi_autoscale.Program.{
  State, Step, request, tick, Reach, here, next, after_request, after_tick,
}

module _ {F K : Type 0} ⦃f : Float64 F⦄ (lower_rune : Char → Char)
    (range : Dict (PlanGroup F) → List (String × PlanGroup F)) (env : Env) (objects : Objects F K)
    (uid key dc os : String) where
  Step-IsBound :
      {s t : State F}
      → Step lower_rune range env objects s t
      → IsBound uid key dc os s.caches
      → IsBound uid key dc os t.caches
  unfolding after_request after_tick
  Step-IsBound {s} (request namespace name e) h = rw e (
      reconcile-IsBound lower_rune range env objects uid key dc os namespace name s.caches s.calls
        h)
  Step-IsBound {s} (tick e) h =
      rw e (run_cycle-IsBound lower_rune env objects uid key dc os s.caches s.calls h)

  -- Once there is a pricing cache for a policy, it stays for the whole run of the program, with the
  -- VPSie key, the data centre and the image that it was made for: reconciliations of that policy or of
  -- any other and rebalancing cycles, in any order, keep them, whatever the policy that is read says of
  -- them later, and whatever fails.
  pub Reach-IsBound :
      (s t : State F)
      → Reach lower_rune range env objects s t
      → IsBound uid key dc os s.caches
      → IsBound uid key dc os t.caches
  Reach-IsBound s t here h = h
  Reach-IsBound s t (next r step) h = Step-IsBound step (Reach-IsBound s _ r h)
