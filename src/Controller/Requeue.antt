-- ===== src/Controller/Requeue.antt =====
-- When `Reconcile` of internal/controller/scalingpolicy_controller.go comes again.
use Prim.Native.Char.{Char}
use vpsie_k8s_capi_autoscale.Base.{◌≡◌, ◌⊎◌}
use vpsie_k8s_capi_autoscale.Plan.{Plan}
use vpsie_k8s_capi_autoscale.Pricing.Cache.{Cache}
use vpsie_k8s_capi_autoscale.Horizontal.Pass.{Pass}
use vpsie_k8s_capi_autoscale.Controller.{Policy}
use vpsie_k8s_capi_autoscale.Controller.Conclude.{
  Reply, requeue_after, requeue_after_default, requeue_after_error,
}

-- The policy is reconciled again after one of the two delays.
abbrev pub IsAgain : Reply → Type 0
IsAgain reply =
    (reply ≡ requeue_after requeue_after_default) ⊎ (reply ≡ requeue_after requeue_after_error)
