-- ===== src/Controller/Reads.antt =====
-- The reads of internal/controller/scalingpolicy_controller.go that change no cluster.
use Prim.Native.Char.{Char}
use vpsie_k8s_capi_autoscale.Base.{All, arith, string_eq}
use vpsie_k8s_capi_autoscale.World.{Calls, Env, MachineDeployment}
use vpsie_k8s_capi_autoscale.Pricing.Cache.{Cache}
use vpsie_k8s_capi_autoscale.Horizontal.DryRun.{IsReadOnly}
use vpsie_k8s_capi_autoscale.Controller.{Policy, Objects, PriceSource}
use vpsie_k8s_capi_autoscale.Controller.Credentials.{
  get_api_key_from_secret, cluster_credentials, deployment_credentials, resolve_credentials,
}
use vpsie_k8s_capi_autoscale.Controller.Prices.{freshen, resolve_current_plan}

module _ {F K : Type 0} (objects : Objects F K) where
  pub freshen-IsReadOnly :
      (lower_rune : Char → Char) (env : Env) (source : PriceSource F) (calls : Calls)
      → All IsReadOnly calls
      → All IsReadOnly (freshen objects lower_rune env source calls).0
  unfolding freshen
  freshen-IsReadOnly lower_rune env source calls h = ground arith

  pub resolve_current_plan-IsReadOnly :
      (md : MachineDeployment) (cache : Cache F) (calls : Calls)
      → All IsReadOnly calls
      → All IsReadOnly (resolve_current_plan objects md cache calls).0
  unfolding resolve_current_plan
  resolve_current_plan-IsReadOnly md cache calls h = ground arith

  pub resolve_credentials-IsReadOnly :
      (policy : Policy F) (calls : Calls)
      → All IsReadOnly calls
      → All IsReadOnly (resolve_credentials objects policy calls).0
  unfolding resolve_credentials deployment_credentials cluster_credentials get_api_key_from_secret
  resolve_credentials-IsReadOnly policy calls h = ground arith
