-- ===== src/Horizontal/ScaleDown.antt =====
-- A pass with no pending pods: start to drain the least utilized node, if a replica can be spared.
use vpsie_k8s_capi_autoscale.Base.{
  ◌*◌, ℤ, pos, add64, quot, ltb_ℤ, leb_ℤ, since, String, ◌<>◌, Bool, true, false, ◌&&◌, Option,
  none, some, List, [], ◌∷◌, ok, err, ◌==◌, string_eq, if◌then◌else◌,
}
use vpsie_k8s_capi_autoscale.Float.{Float64, nought}
use vpsie_k8s_capi_autoscale.Plan.{Plan, NodeUtilization}
use vpsie_k8s_capi_autoscale.Policy.{ScalingPolicySpec}
use vpsie_k8s_capi_autoscale.Scheduler.Packing.{SimulationResult, simulate_downscale}
use vpsie_k8s_capi_autoscale.Utilization.Thresholds.{
  UtilizationResult, effective_cpu_percent, effective_memory_percent,
}
use vpsie_k8s_capi_autoscale.World.{
  Env, cordon_node, drain_node, horizontal_scaling, no_pending_pods, stabilization_active, dry_run,
  scale_down_replicas,
}
use vpsie_k8s_capi_autoscale.Horizontal.Pass.{
  Pass, Outcome, done, failed, panicked, call, condition, event, now, minutes, down_threshold_of,
}
use vpsie_k8s_capi_autoscale.Horizontal.Drain.{reduced}

abbrev pub default_scale_down_stabilization : ℤ
default_scale_down_stabilization = minutes 5

abbrev pub stabilization_of : ScalingPolicySpec → ℤ
stabilization_of spec = elim spec.horizontal.scale_down_stabilization [
  | none ↦ default_scale_down_stabilization
  | some d ↦ d
]

unfoldable pub is_stabilizing : Env → ScalingPolicySpec → Pass → Bool
is_stabilizing env spec p =
    let window = stabilization_of spec in
    elim p.status.last_scale_time [ none ↦ false | some t ↦ ltb_ℤ (since (now env p) t) window ]

-- Cordon, drain, and note the node in the status.
unfoldable pub begin_drain : Env → String → Pass → Outcome
begin_drain env target p =
    let p = call (cordon_node target) p in
    elim (env.cordoned p.calls) [
      | err e ↦ (p, failed ("cordoning node " <> target <> ": " <> e))
      | ok _ ↦
          let p = call (drain_node target) p in
          elim (env.drained p.calls) [
            | err e ↦ (p, failed ("draining node " <> target <> ": " <> e))
            | ok evicted ↦
                let p = record p {
                  status = record (p.status) {
                    draining_node = target;
                    draining_started_at = some (now env p);
                  };
                } in
                (
                  event "HorizontalDrain" (condition horizontal_scaling true scale_down_replicas p),
                  done,
                )
          ]
    ]

module _ {F : Type 0} ⦃f : Float64 F⦄ where
  open f use {lt, add, div, of_int}

  unfoldable pub ratio_of : ℤ → ℤ → F
  ratio_of requested allocatable =
      if ltb_ℤ (pos 0) allocatable then div (of_int requested) (of_int allocatable) else nought

  unfoldable pub node_score : NodeUtilization → F
  unfolding ratio_of
  node_score n =
      add (ratio_of n.requested_cpu n.allocatable_cpu) (ratio_of n.requested_ram n.allocatable_ram)

  -- The loop, from the best node and score so far.
  unfoldable pub scan_least : NodeUtilization → F → List NodeUtilization → NodeUtilization
  unfolding node_score
  scan_least best score [] = best
  scan_least best score (n ∷ ns) =
      let better = lt (node_score n) score in
      scan_least (if better then n else best) (if better then node_score n else score) ns

unfoldable pub least_utilized_node : (F : Type 0) ⦃f : Float64 F⦄ → List NodeUtilization → String
unfolding scan_least
least_utilized_node F [] = ""
least_utilized_node F ⦃f⦄ (n ∷ ns) = (scan_least n (f.of_int (pos 2)) (n ∷ ns)).node_name

module _ {F : Type 0} ⦃f : Float64 F⦄ where
  -- A plan that stands for the first node's allocatable resources.
  unfoldable pub synthetic_plan : NodeUtilization → Plan F
  synthetic_plan n = record {
    identifier = "";
    nickname = "";
    cpu = quot (add64 n.allocatable_cpu (pos 100)) 1000;
    ram = quot (add64 n.allocatable_ram (pos (256 * 1024 * 1024))) (1024 * 1024);
    ssd = pos 0;
    traffic = pos 0;
    price_monthly = nought;
    category_id = "";
    category_name = "";
  }

-- Do the pods fit on one node fewer? `none` is a panic; without nodes nothing is simulated.
unfoldable pub nodes_fit :
    (F : Type 0) ⦃f : Float64 F⦄ → Env → List NodeUtilization → ℤ → Option Bool
nodes_fit F env [] desired = some true
nodes_fit F env (n ∷ ns) desired =
    elim (simulate_downscale env.parse_quantity env.sort_slice (n ∷ ns) (synthetic_plan {F = F} n)
      desired) [ none ↦ none | some r ↦ some (SimulationResult.safe r) ]

module _ {F : Type 0} ⦃f : Float64 F⦄ where
  unfoldable pub start_scale_down : Env → Bool → UtilizationResult F → ℤ → Pass → Outcome
  unfolding begin_drain
  start_scale_down env is_dry util desired p =
      let p = record p { status = record (p.status) { desired_replicas = desired } } in
      let target = least_utilized_node F util.nodes in
      if is_dry
      then (condition horizontal_scaling true dry_run p, done)
      else if target == ""
      then (p, done)
      else begin_drain env target p

  -- Drain a node if the pods fit on one fewer.
  unfoldable pub remove_replica : Env → ScalingPolicySpec → UtilizationResult F → ℤ → Pass → Outcome
  unfolding start_scale_down
  remove_replica env spec util desired p = elim (nodes_fit F env util.nodes desired) [
    | none ↦ (p, panicked)
    | some false ↦ (condition horizontal_scaling true no_pending_pods p, done)
    | some true ↦ start_scale_down env spec.dry_run util desired p
  ]

  -- That the replicas are above the minimum is tested before, and not again.
  unfoldable pub is_underutilized : ScalingPolicySpec → UtilizationResult F → Bool
  is_underutilized spec util =
      let threshold = down_threshold_of spec.target_utilization.scale_down_threshold in
      ltb_ℤ (effective_cpu_percent util) threshold
      && ltb_ℤ (effective_memory_percent util) threshold

  unfoldable pub scale_down :
      Env → ScalingPolicySpec → Option (UtilizationResult F) → ℤ → ℤ → Pass → Outcome
  unfolding is_stabilizing remove_replica
  scale_down env spec util min_replicas current p =
      if leb_ℤ current min_replicas
      then (condition horizontal_scaling true no_pending_pods p, done)
      else elim util [
        | none ↦ (p, done)
        | some u ↦
            if is_stabilizing env spec p
            then (condition horizontal_scaling true stabilization_active p, done)
            else if is_underutilized spec u
            then remove_replica env spec u (reduced min_replicas current) p
            else (condition horizontal_scaling true no_pending_pods p, done)
      ]
