-- ===== src/Rebalancer/Guards.antt =====
-- internal/controller/rebalancer.go: how often a policy is rebalanced, and when a rollout is over.
use vpsie_k8s_capi_autoscale.Base.{
  ℤ, pos, ltb_ℤ, since, String, Bool, true, false, ◌&&◌, Option, none, some, ◌==◌, string_eq,
  if◌then◌else◌, leb_ℤ,
}
use vpsie_k8s_capi_autoscale.Policy.{ScalingPolicySpec, ScalingPolicyStatus}
use vpsie_k8s_capi_autoscale.Horizontal.Pass.{minutes}

abbrev pub min_replicas_for_rebalance : ℤ
min_replicas_for_rebalance = pos 2

abbrev pub default_rebalance_interval : ℤ
default_rebalance_interval = minutes 5

-- The time between two cycles, by `NewRebalancer`.
unfoldable pub interval_of : ℤ → ℤ
interval_of interval = if leb_ℤ interval (pos 0) then default_rebalance_interval else interval

unfoldable pub cooldown_for_aggressiveness : String → ℤ
cooldown_for_aggressiveness a =
    if a == "conservative" then minutes 30 else if a == "aggressive" then minutes 5 else minutes 15

unfoldable pub cooldown_of : ScalingPolicySpec → ℤ
unfolding cooldown_for_aggressiveness
cooldown_of spec = elim spec.rebalancing.cooldown_period [
  | none ↦ cooldown_for_aggressiveness spec.aggressiveness
  | some period ↦ period
]

unfoldable pub is_cooling : ScalingPolicySpec → ScalingPolicyStatus → ℤ → Bool
unfolding cooldown_of
is_cooling spec status time = elim status.last_rebalance_time [
  | none ↦ false
  | some t ↦ ltb_ℤ (since time t) (cooldown_of spec)
]

abbrev equal_ℤ : ℤ → ℤ → Bool
equal_ℤ a b = leb_ℤ a b && leb_ℤ b a

-- Two pointers to numbers of replicas.
unfoldable pub replicas_match : Option ℤ → Option ℤ → Bool
replicas_match none none = true
replicas_match (some a) (some b) = equal_ℤ a b
replicas_match _ _ = false
