-- ===== src/Controller/Watch.antt =====
-- internal/controller/scalingpolicy_controller.go: `machineDeploymentToScalingPolicy`, by which a
-- change of a MachineDeployment leads to reconciliations. The object is a MachineDeployment.
use vpsie_k8s_capi_autoscale.Base.{
  String, Bool, ◌||◌, List, [], ◌∷◌, ◌==◌, string_eq, ok, err, map, keep, index_string,
}
use vpsie_k8s_capi_autoscale.Policy.{ObjectReference}
use vpsie_k8s_capi_autoscale.World.{Calls, MachineDeployment, list_policies}
use vpsie_k8s_capi_autoscale.NodePool.Satellite.{satellite_label}
use vpsie_k8s_capi_autoscale.Controller.{Policy, Objects}

-- A direct target, or a satellite of the target.
abbrev pub concerns : {F : Type 0} → MachineDeployment → Policy F → Bool
concerns md policy =
    let target = ObjectReference.name policy.spec.target_ref in
    target == md.name || index_string satellite_label md.labels == target

module _ {F K : Type 0} (objects : Objects F K) where
  -- The namespaces and the names of the policies to reconcile.
  unfoldable pub machine_deployment_to_scaling_policy :
      MachineDeployment → Calls → Calls × List (String × String)
  machine_deployment_to_scaling_policy md calls =
      let calls = list_policies md.namespace ∷ calls in
      elim (objects.policies calls) [
        | err _ ↦ (calls, [])
        | ok policies ↦
            (calls, map (λ p. (Policy.namespace p, Policy.name p)) (keep (concerns md) policies))
      ]
