-- ===== src/Controller/Conclude.antt =====
-- internal/controller/scalingpolicy_controller.go: how `Reconcile` ends.
use Prim.Native.Char.{Char}
use vpsie_k8s_capi_autoscale.Base.{
  ℤ, pos, ◌*◌, ◌^◌, String, true, false, Option, none, some, ◌∷◌, ok, err, if◌then◌else◌,
}
use vpsie_k8s_capi_autoscale.Float.{Float64, nought}
use vpsie_k8s_capi_autoscale.Plan.{Plan}
use vpsie_k8s_capi_autoscale.Policy.{ScalingPolicySpec}
use vpsie_k8s_capi_autoscale.World.{
  Calls, Env, MachineDeployment, ConditionType, ConditionReason, set_condition, update_status,
  plan_selected, dry_run, no_better_plan, plan_switched,
}
use vpsie_k8s_capi_autoscale.Pricing.Cache.{Cache}
use vpsie_k8s_capi_autoscale.PlanSwitch.{MachineTemplate, switch_plan}
use vpsie_k8s_capi_autoscale.Selector.{ScalingDirection, SelectionResult}
use vpsie_k8s_capi_autoscale.Utilization.Thresholds.{
  UtilizationResult, effective_cpu_percent, effective_memory_percent, effective_source,
}
use vpsie_k8s_capi_autoscale.Horizontal.Pass.{Pass, done, condition, event, current_replicas_of}
use vpsie_k8s_capi_autoscale.Controller.{
  Policy, Report, Caches, UtilizationStatus, phase_active, phase_dry_run, phase_error, plan_info,
}
use vpsie_k8s_capi_autoscale.Controller.Prices.{choose_plan, switch_target, price_of}

-- What `Reconcile` answers: when to come again (at once never, if 0), an error, or a panic.
pub data Reply : Type 0 where
  requeue_after : ℤ → Reply
  rejected : String → Reply
  aborted : Reply

abbrev pub requeue_after_default : ℤ
requeue_after_default = pos (60 * 10 ^ 9)

abbrev pub requeue_after_error : ℤ
requeue_after_error = pos (30 * 10 ^ 9)

-- The policy as it stands in memory, if it was read; the caches; the calls; the answer.
pub record Ended (F : Type 0) : Type 0 where
  pub policy : Option (Policy F)
  pub caches : Caches F
  pub calls : Calls
  pub reply : Reply

module _ {F : Type 0} where
  abbrev pub ended : Policy F → Caches F → Calls → Reply → Ended F
  ended policy caches calls reply = record {
    policy = some policy;
    caches = caches;
    calls = calls;
    reply = reply;
  }

  -- `r.Status().Update`, and the time to come again.
  unfoldable pub write_status : Env → ℤ → Policy F → Caches F → Calls → Ended F
  write_status env delay policy caches calls =
      let calls = update_status ∷ calls in
      elim (env.updated calls) [
        | err e ↦ ended policy caches calls (rejected e)
        | ok _ ↦ ended policy caches calls (requeue_after delay)
      ]

  -- A condition that does not hold, and the phase of an error.
  unfoldable pub give_up :
      Env → ConditionType → ConditionReason → Policy F → Caches F → Calls → Ended F
  unfolding write_status
  give_up env t reason policy caches calls =
      write_status env requeue_after_error
        (record policy { report = record (policy.report) { phase = phase_error } }) caches
        (set_condition t false reason ∷ calls)

-- The policy, the caches and the pass that are threaded through the second half.
module _ {F : Type 0} ⦃f : Float64 F⦄ where
  open f use {lt, sub, mul, of_int}

  unfoldable pub utilization_status : UtilizationResult F → ℤ → UtilizationStatus
  utilization_status r time = record {
    cpu_percent = effective_cpu_percent r;
    memory_percent = effective_memory_percent r;
    source = effective_source r;
    last_updated = time;
  }

  abbrev pub with_utilization : Option (UtilizationResult F) → ℤ → Report F → Report F
  with_utilization none time report = report
  with_utilization (some r) time report = record report {
    current_utilization = some (utilization_status r time);
  }

  -- The recommendation, and the savings of it.
  unfoldable pub with_recommendation :
      Option (Plan F) → SelectionResult F → MachineDeployment → Report F → Report F
  with_recommendation current result md report = elim result.plan [
    | none ↦ report
    | some p ↦
        let advised : Report F = record report { recommended_plan = some (plan_info p) } in
        let savings =
          mul (sub (price_of current) (Plan.price_monthly p)) (of_int (current_replicas_of md)) in
        if lt nought result.savings_percent
        then record advised { estimated_monthly_savings = some savings }
        else advised
  ]

  abbrev pub with_phase_dry_run : Report F → Report F
  with_phase_dry_run report = record report { phase = phase_dry_run }

  abbrev pub with_phase_active : Report F → Report F
  with_phase_active report = record report { phase = phase_active }

  abbrev pub with_phase_error : Report F → Report F
  with_phase_error report = record report { phase = phase_error }

  -- Switch to the plan, if there is one to switch to; the error of the switch is only noted.
  unfoldable pub act :
      {K : Type 0}
      → (Char → Char)
      → Env
      → ScalingPolicySpec
      → Option (Plan F)
      → Option (MachineTemplate K)
      → Report F
      → Pass
      → Pass × Report F
  act lower_rune env spec target template report p =
      if spec.dry_run
      then elim target [
        | none ↦ (condition plan_selected true no_better_plan p, with_phase_dry_run report)
        | some _ ↦
            (event "DryRun" (condition plan_selected true dry_run p), with_phase_dry_run report)
      ]
      else elim target [
        | none ↦ (condition plan_selected true no_better_plan p, with_phase_active report)
        | some plan ↦
            let (p, exit) = switch_plan lower_rune env plan template p in
            elim exit [
              | done ↦ (
                event "PlanSwitched" (condition plan_selected true plan_switched p),
                with_phase_active report,
              )
              | _ ↦ (event "SwitchFailed" p, with_phase_error report)
            ]
      ]

  -- The plan is chosen and acted upon.
  unfoldable pub conclude :
      {K : Type 0}
      → (Char → Char)
      → Env
      → Policy F
      → Caches F
      → Cache F
      → Option (Plan F)
      → Option (MachineTemplate K)
      → Option (UtilizationResult F)
      → ScalingDirection
      → Pass
      → Ended F
  unfolding act write_status
  conclude lower_rune env policy caches cache current template util direction p =
      let result = choose_plan lower_rune policy.spec cache util current direction in
      let report = with_recommendation current result p.deployment policy.report in
      let (p, report) =
        act lower_rune env policy.spec (switch_target policy.spec current result) template report
          p in
      write_status env requeue_after_default (record policy { status = p.status; report = report })
        caches p.calls
