-- ===== src/Controller/Credentials.antt =====
-- internal/controller/scalingpolicy_controller.go: `resolveCredentials` and `getAPIKeyFromSecret`.
use vpsie_k8s_capi_autoscale.Base.{
  String, ◌<>◌, none, some, ◌∷◌, Result, ok, err, lookup, index_string, ◌==◌, string_eq,
  if◌then◌else◌,
}
use vpsie_k8s_capi_autoscale.Policy.{ObjectReference, CredentialsRef}
use vpsie_k8s_capi_autoscale.World.{
  Calls, MachineDeployment, get_secret, get_target, get_vpsie_cluster, found, missing, unknown,
}
use vpsie_k8s_capi_autoscale.NodePool.Satellite.{cluster_label}
use vpsie_k8s_capi_autoscale.Controller.{Policy, VpsieCluster, Objects}

-- `namespace`, or the other if it is "".
abbrev pub or_namespace : String → String → String
or_namespace namespace fallback = if namespace == "" then fallback else namespace

abbrev pub target_namespace : {F : Type 0} → Policy F → String
target_namespace policy =
    or_namespace (ObjectReference.namespace policy.spec.target_ref) policy.namespace

module _ {F K : Type 0} (objects : Objects F K) where
  unfoldable pub get_api_key_from_secret : String → String → Calls → Calls × Result String
  get_api_key_from_secret namespace name calls =
      let calls = get_secret namespace name ∷ calls in
      let place = namespace <> "/" <> name in
      let no_key : Calls × Result String =
        (calls, err ("secret " <> place <> " has no apiKey field")) in
      elim (objects.secret calls) [
        | missing e ↦ (calls, err ("getting secret " <> place <> ": " <> e))
        | unknown e ↦ (calls, err ("getting secret " <> place <> ": " <> e))
        | found data_of ↦ elim (lookup "apiKey" data_of) [
          | none ↦ no_key
          | some api_key ↦ if api_key == "" then no_key else (calls, ok api_key)
        ]
      ]

  -- The credentials of the VPSieCluster.
  unfoldable pub cluster_credentials : String → VpsieCluster → Calls → Calls × Result String
  unfolding get_api_key_from_secret
  cluster_credentials name cluster calls =
      if cluster.credentials_name == ""
      then (calls, err ("VPSieCluster " <> name <> " has no credentialsRef"))
      else get_api_key_from_secret (or_namespace cluster.credentials_namespace cluster.namespace)
          cluster.credentials_name calls

  -- The VPSieCluster of the MachineDeployment.
  unfoldable pub deployment_credentials : String → MachineDeployment → Calls → Calls × Result String
  unfolding cluster_credentials
  deployment_credentials namespace md calls =
      let name = index_string cluster_label md.labels in
      let asked = get_vpsie_cluster namespace name ∷ calls in
      if name == ""
      then (calls, err ("MachineDeployment " <> md.name <> " has no cluster-name label"))
      else elim (objects.vpsie_cluster asked) [
        | missing e ↦ (asked, err ("getting VPSieCluster " <> name <> ": " <> e))
        | unknown e ↦ (asked, err ("getting VPSieCluster " <> name <> ": " <> e))
        | found cluster ↦ cluster_credentials name cluster asked
      ]

  unfoldable pub resolve_credentials : Policy F → Calls → Calls × Result String
  unfolding deployment_credentials
  resolve_credentials policy calls = elim policy.spec.credentials_ref [
    | some ref ↦
        get_api_key_from_secret (or_namespace (CredentialsRef.namespace ref) policy.namespace)
          (CredentialsRef.name ref) calls
    | none ↦
        let namespace = target_namespace policy in
        let calls = get_target namespace (ObjectReference.name policy.spec.target_ref) ∷ calls in
        elim (objects.target calls) [
          | missing e ↦ (calls, err ("getting MachineDeployment for credential fallback: " <> e))
          | unknown e ↦ (calls, err ("getting MachineDeployment for credential fallback: " <> e))
          | found md ↦ deployment_credentials namespace md calls
        ]
  ]
