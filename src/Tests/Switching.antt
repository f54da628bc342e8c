-- ===== src/Tests/Switching.antt =====
-- A switch of the plan on the sample cluster, twenty minutes after the last scaling.
use Prim.Native.Char.{Char}
use Prim.Native.String.{String}
use vpsie_k8s_capi_autoscale.Base.{
  pos, ltb_ℤ, since, ◌≡◌, ◌≢◌, ap, refl, ◌⊎◌, false, Option, none, some, [], ◌∷◌, ok, arith,
}
use vpsie_k8s_capi_autoscale.World.{Env}
use vpsie_k8s_capi_autoscale.Horizontal.Pass.{Pass, Outcome, done}
use vpsie_k8s_capi_autoscale.Horizontal.Reconcile.{reconcile_horizontal}
use vpsie_k8s_capi_autoscale.PlanSwitch.{
  MachineTemplate, new_template, provide, point_to, switch_plan,
}
use vpsie_k8s_capi_autoscale.PlanSwitch.Rollback.{
  retargets, IsUnmoved, IsProvided, IsMoved, switch_plan-IsProvided, switch_plan-reverts,
}
use vpsie_k8s_capi_autoscale.Tests.Sample.{thousandths, env, spec, pass, medium}
use vpsie_k8s_capi_autoscale.Tests.Scaling.{unmeasured, no_plan, settled}

abbrev same_rune : Char → Char
same_rune c = c

-- The settings are a text.
abbrev template : MachineTemplate String
template = record {
  name = "template";
  namespace = "default";
  labels = [];
  resource_identifier = "small";
  settings = "";
}

-- One of the two replicas is not ready.
abbrev before : Pass
before =
    let p = pass "" none in
    record p {
      status = record (p.status) { last_scale_time = some (pos 0) };
      deployment = record (p.deployment) { deprecated_ready_replicas = some (pos 1) };
    }

abbrev switched : Outcome
switched = switch_plan same_rune settled medium (some template) before

switched_value : switched.1 ≡ done
unfolding switch_plan provide point_to
switched_value = refl

switch_plan-IsProvided_example :
    IsUnmoved before switched
    ⊎ (IsProvided settled (new_template same_rune before.deployment medium template) before.calls
        × IsMoved settled
            (new_template same_rune before.deployment medium template).name
            before
            switched)
switch_plan-IsProvided_example = switch_plan-IsProvided same_rune settled medium template before

abbrev next : Pass
next = record { status = switched.0.status; deployment = switched.0.deployment; calls = [] }

-- Twenty minutes later.
abbrev later : Env
later = env (pos 1200000000000) [] (ok (pos 0))

abbrev is_empty : String → Option String
is_empty String.[] = none
is_empty (String.◌∷◌ c s) = some s

template-is_named : ◌≢◌ {A = String} "template" ""
template-is_named e = let clash = ap is_empty e in ground arith

switch_plan-reverts_example :
    ((reconcile_horizontal later (spec false) "c" unmeasured no_plan next).1 ≡ done)
    × ((reconcile_horizontal later (spec false) "c" unmeasured no_plan next).0.deployment
        ≡ before.deployment)
    × ((reconcile_horizontal later
          (spec false)
          "c"
          unmeasured
          no_plan
          next).0.status.previous_infra_template
        ≡ "")
    × (retargets (reconcile_horizontal later (spec false) "c" unmeasured no_plan next).0.calls
        ≡ (before.deployment.name, before.deployment.infrastructure_name) ∷ [])
unfolding switch_plan provide point_to ltb_ℤ since
switch_plan-reverts_example =
    switch_plan-reverts same_rune settled later medium template before next (spec false) "c"
      unmeasured no_plan [] (pos 0) switched_value refl refl template-is_named refl refl refl refl
      refl refl (λ _. refl) refl refl
