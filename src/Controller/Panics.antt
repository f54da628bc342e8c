-- ===== src/Controller/Panics.antt =====
-- No handler that `Reconcile` of internal/controller/scalingpolicy_controller.go calls panics while every
-- text is a quantity.
use Prim.Native.Char.{Char}
use vpsie_k8s_capi_autoscale.Base.{
  ℤ, ◌≢◌, inl, inr, String, Bool, Option, none, some, List, [], ◌∷◌, Dict, Result-cases, arith,
}
use vpsie_k8s_capi_autoscale.Float.{Float64}
use vpsie_k8s_capi_autoscale.Plan.{Plan, NodeUtilization}
use vpsie_k8s_capi_autoscale.Policy.{ScalingPolicySpec}
use vpsie_k8s_capi_autoscale.World.{Env, client_for_cluster}
use vpsie_k8s_capi_autoscale.Pricing.Cache.{Cache}
use vpsie_k8s_capi_autoscale.PlanSwitch.{MachineTemplate}
use vpsie_k8s_capi_autoscale.Utilization.Thresholds.{UtilizationResult}
use vpsie_k8s_capi_autoscale.Utilization.Calculator.{calculate}
use vpsie_k8s_capi_autoscale.Scheduler.Total.{IsTotal, simulate_downscale-Answers}
use vpsie_k8s_capi_autoscale.Horizontal.Pass.{Pass, Outcome, panicked, call, current_replicas_of}
use vpsie_k8s_capi_autoscale.Horizontal.Drain.{check_pending, finish_drain, continue_drain, reduced}
use vpsie_k8s_capi_autoscale.Horizontal.Rollout.{await_rollout, revert_template}
use vpsie_k8s_capi_autoscale.Horizontal.ScaleUp.{scale_up}
use vpsie_k8s_capi_autoscale.Horizontal.ScaleDown.{
  nodes_fit, begin_drain, start_scale_down, remove_replica, scale_down, synthetic_plan,
}
use vpsie_k8s_capi_autoscale.Horizontal.Reconcile.{
  reconcile_horizontal, with_client, with_pending, relevant_pods,
}
use vpsie_k8s_capi_autoscale.Horizontal.Cases.{asked, with_pending_cases}
use vpsie_k8s_capi_autoscale.Direction.{
  crashed, judge_downscale, judge_load, measure, ask_cluster, determine_direction,
}
use vpsie_k8s_capi_autoscale.NodePool.Groups.{PlanGroup}
use vpsie_k8s_capi_autoscale.NodePool.Pools.{
  list_and_serve, connect_and_serve, reconcile_node_pools,
}

abbrev Runs : Outcome → Type 0
Runs o = o.1 ≢ panicked

continue_drain-Runs :
    (env : Env) (min current : ℤ) (p : Pass) → Runs (continue_drain env min current p)
unfolding continue_drain check_pending finish_drain
continue_drain-Runs env min current p crash = ground arith

await_rollout-Runs : (env : Env) (p : Pass) → Runs (await_rollout env p)
unfolding await_rollout revert_template
await_rollout-Runs env p crash = ground arith

scale_up-Runs :
    (env : Env) (is_dry : Bool) (max current : ℤ) (p : Pass)
    → Runs (scale_up env is_dry max current p)
unfolding scale_up
scale_up-Runs env is_dry max current p crash = ground arith

nodes_fit-Answers :
    (F : Type 0) ⦃f : Float64 F⦄ (env : Env) (nodes : List NodeUtilization) (desired : ℤ)
    → IsTotal env.parse_quantity
    → nodes_fit F env nodes desired ≢ none
unfolding nodes_fit
nodes_fit-Answers F env [] desired total panic = ground arith
nodes_fit-Answers F env (n ∷ ns) desired total panic =
    let (s, e) =
      simulate_downscale-Answers env.parse_quantity total env.sort_slice (n ∷ ns)
        (synthetic_plan {F = F} n) desired in
    ground arith

module _ {F : Type 0} ⦃f : Float64 F⦄ (env : Env) (total : IsTotal env.parse_quantity) where
  scale_down-Runs :
      (spec : ScalingPolicySpec) (util : Option (UtilizationResult F)) (min current : ℤ) (p : Pass)
      → Runs (scale_down env spec util min current p)
  unfolding scale_down remove_replica start_scale_down begin_drain
  scale_down-Runs spec none min current p crash = ground arith
  scale_down-Runs spec (some u) min current p crash =
      let runs = nodes_fit-Answers F env u.nodes (reduced min current) total in ground arith

  pub reconcile_horizontal-Runs :
      (spec : ScalingPolicySpec) (cluster_name : String) (util : Option (UtilizationResult F))
      (plan : Option (Plan F)) (p : Pass)
      → Runs (reconcile_horizontal env spec cluster_name util plan p)
  unfolding reconcile_horizontal with_client
  reconcile_horizontal-Runs spec cluster_name util plan p crash =
      elim (Result-cases (env.pending_pods (asked cluster_name p).calls)) [
        | inr (why, e) ↦ ground arith
        | inl (pods, e) ↦
            let runs : Runs
                (with_pending env spec util (relevant_pods spec plan pods) (asked cluster_name p)) =
              with_pending_cases Runs env spec util _ _ (λ _. continue_drain-Runs env _ _ _)
                (λ _ _. await_rollout-Runs env _) (λ _ _. scale_down-Runs spec util _ _ _)
                (λ _ _ _. scale_up-Runs env spec.dry_run _ _ _) in
            ground arith
      ]

  pub determine_direction-Runs :
      (spec : ScalingPolicySpec) (plan : Option (Plan F)) (cluster_name : String) (p : Pass)
      → (determine_direction env spec plan cluster_name p).1 ≢ crashed
  unfolding determine_direction ask_cluster measure judge_load judge_downscale
  determine_direction-Runs spec none cluster_name p crash = ground arith
  determine_direction-Runs spec (some plan) cluster_name p crash =
      let asked_one = call (client_for_cluster cluster_name p.deployment.namespace) p in
      elim (Result-cases (calculate {F = F} env asked_one.calls p.deployment.name).1) [
        | inr (why, e) ↦ ground arith
        | inl (r, e) ↦
            let (s, simulated) =
              simulate_downscale-Answers env.parse_quantity total env.sort_slice r.nodes plan
                (current_replicas_of p.deployment) in
            ground arith
      ]

pub reconcile_node_pools-Runs :
    {F K : Type 0} ⦃f : Float64 F⦄ (lower_rune : Char → Char)
    (range : Dict (PlanGroup F) → List (String × PlanGroup F)) (env : Env)
    (spec : ScalingPolicySpec) (cache : Cache F) (cluster_name : String) (current : Option (Plan F))
    (template : Option (MachineTemplate K)) (p : Pass)
    → Runs (reconcile_node_pools lower_rune range env spec cache cluster_name current template p)
unfolding reconcile_node_pools connect_and_serve list_and_serve
reconcile_node_pools-Runs lower_rune range env spec cache cluster_name current template p crash =
    ground arith
