-- ===== src/Horizontal/Pass.antt =====
-- One pass of a handler: the status and the MachineDeployment as they stand, and the calls made.
use vpsie_k8s_capi_autoscale.Base.{
  ℕ, zero, ◌*◌, ◌^◌, ℤ, pos, leb_ℤ, String, Bool, none, some, ◌∷◌, if◌then◌else◌,
}
use vpsie_k8s_capi_autoscale.Policy.{ScalingPolicyStatus, HorizontalSpec}
use vpsie_k8s_capi_autoscale.World.{
  Call, Calls, Env, ConditionType, ConditionReason, set_condition, record_event, MachineDeployment,
}

pub record Pass : Type 0 where
  pub status : ScalingPolicyStatus
  pub deployment : MachineDeployment
  pub calls : Calls

-- How a handler ends: `return nil`, an error with its text, or a panic.
pub data Exit : Type 0 where
  done panicked : Exit
  failed : String → Exit

-- A panic stops the program, and `rest` follows any other end.
pub exit_cases {κ} :
    {A : Type 0} (P : A → Type κ) (e : Exit) {stop rest : A}
    → P stop
    → P rest
    → P (elim e [ panicked ↦ stop | _ ↦ rest ])
exit_cases P done p q = q
exit_cases P panicked p q = p
exit_cases P (failed why) p q = q

abbrev pub Outcome : Type 0
Outcome = Pass × Exit

abbrev pub call : Call → Pass → Pass
call c p = record p { calls = c ∷ p.calls }

abbrev pub condition : ConditionType → Bool → ConditionReason → Pass → Pass
condition t holds reason p = call (set_condition t holds reason) p

abbrev pub event : String → Pass → Pass
event reason p = call (record_event reason) p

-- `metav1.Now()`
abbrev pub now : Env → Pass → ℤ
now env p = env.clock p.calls

abbrev pub minutes : ℕ → ℤ
minutes n = pos (n * 60 * 10 ^ 9)

abbrev pub current_replicas_of : MachineDeployment → ℤ
current_replicas_of md = elim md.replicas [ none ↦ pos 1 | some n ↦ n ]

abbrev pub ready_replicas_of : MachineDeployment → ℤ
ready_replicas_of md = elim md.deprecated_ready_replicas [
  | some n ↦ n
  | none ↦ elim md.ready_replicas [ some n ↦ n | none ↦ pos 0 ]
]

unfoldable pub min_replicas_of : HorizontalSpec → ℤ
min_replicas_of h = if leb_ℤ h.min_replicas (pos 0) then pos 1 else h.min_replicas

unfoldable pub max_replicas_of : HorizontalSpec → ℤ
max_replicas_of h = if leb_ℤ h.max_replicas (pos 0) then pos 10 else h.max_replicas

-- `scaleDownThreshold`, 5 if it is not set.
unfoldable pub down_threshold_of : ℤ → ℤ
down_threshold_of (pos zero) = pos 5
down_threshold_of t = t
