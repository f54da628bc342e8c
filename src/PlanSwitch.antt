-- ===== src/PlanSwitch.antt =====
-- internal/controller/scalingpolicy_controller.go: `switchPlan`, which points the MachineDeployment to
-- a template with another plan.
pub mod Rollback
use Prim.Native.Char.{Char}
use vpsie_k8s_capi_autoscale.Base.{
  String, ◌<>◌, Option, none, some, ◌∷◌, Dict, Result, ok, err, map_runes,
}
use vpsie_k8s_capi_autoscale.Plan.{Plan}
use vpsie_k8s_capi_autoscale.World.{
  Env, MachineDeployment, get_template, create_template, patch_infrastructure, present, absent,
  unreadable,
}
use vpsie_k8s_capi_autoscale.Horizontal.Pass.{Pass, Outcome, done, failed, call}

-- A VPSieMachineTemplate of the infrastructure provider. `settings` stands for what the code copies
-- and does not look into: data centre, image, tags and server group.
pub record MachineTemplate (K : Type 0) : Type 0 where
  pub name : String
  pub namespace : String
  pub labels : Dict String
  pub resource_identifier : String
  pub settings : K

-- Note the present template, and point to the other.
unfoldable pub point_to : Env → String → Pass → Outcome
point_to env template p =
    let p = record p {
      status = record (p.status) {
        previous_infra_template = MachineDeployment.infrastructure_name p.deployment;
      };
      deployment = record (p.deployment) { infrastructure_name = template };
    } in
    let p = call (patch_infrastructure p.deployment.name template) p in
    elim (env.patched p.calls) [
      | ok _ ↦ (p, done)
      | err e ↦ (
        p,
        failed ("patching MachineDeployment " <> p.deployment.name <> " infrastructureRef: " <> e),
      )
    ]

-- The template is created unless it is there.
unfoldable pub provide : {K : Type 0} → Env → MachineTemplate K → Pass → Outcome
unfolding point_to
provide env template p =
    let p = call (get_template template.namespace template.name) p in
    elim (env.template_found p.calls) [
      | present ↦ point_to env template.name p
      | unreadable e ↦ (p, failed ("checking existing template: " <> e))
      | absent ↦
          let p =
            call (create_template template.namespace template.name template.resource_identifier)
              p in
          elim (env.created p.calls) [
            | err e ↦ (p, failed ("creating VPSieMachineTemplate " <> template.name <> ": " <> e))
            | ok _ ↦ point_to env template.name p
          ]
    ]

-- `strings.ToLower` maps each rune by `lower_rune`.
module _ {F K : Type 0} (lower_rune : Char → Char) where
  unfoldable pub new_template : MachineDeployment → Plan F → MachineTemplate K → MachineTemplate K
  new_template md plan current = record {
    name = md.name <> "-" <> map_runes lower_rune plan.nickname;
    namespace = md.namespace;
    labels = current.labels;
    resource_identifier = plan.identifier;
    settings = current.settings;
  }

  unfoldable pub switch_plan : Env → Plan F → Option (MachineTemplate K) → Pass → Outcome
  unfolding provide
  switch_plan env plan none p = (p, failed "no current template to base new template on")
  switch_plan env plan (some current) p = provide env (new_template p.deployment plan current) p
