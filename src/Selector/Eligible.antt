-- ===== src/Selector/Eligible.antt =====
-- What it takes to be a candidate, as orders between numbers.
use vpsie_k8s_capi_autoscale.Base.{
  ℤ, ◌≤ℤ◌, ◌<ℤ◌, ltb_ℤ→le, leb_ℤ, leb_ℤ→lt, ◌≡◌, ◌⊎◌, inl, inr, true, false, contains, Bool-cases,
  arith,
}
use vpsie_k8s_capi_autoscale.Plan.{Plan}
use vpsie_k8s_capi_autoscale.Policy.{ResourceConstraints}
use vpsie_k8s_capi_autoscale.Pricing.Scorer.{plan_capacity}
use vpsie_k8s_capi_autoscale.Selector.{
  ScalingDirection, direction_any, direction_up, direction_down, Requirements, meets_constraints,
  direction_allows, has_capacity, is_candidate,
}

module _ {F : Type 0} where
  -- The plan is within the boundaries of the policy.
  pub record IsWithin (c : ResourceConstraints) (p : Plan F) : Type 0 where
    pub not_excluded : contains p.identifier c.excluded_plans ≡ false
    pub min_cpu_le : c.min_cpu ≤ℤ p.cpu
    pub cpu_le_max : p.cpu ≤ℤ c.max_cpu
    pub min_ram_le : c.min_ram ≤ℤ p.ram
    pub ram_le_max : p.ram ≤ℤ c.max_ram
    pub min_ssd_le : c.min_ssd ≤ℤ p.ssd

  -- What a node of the plan can allocate is enough.
  pub record HasRoom (cpu_millis ram_mb : ℤ) (p : Plan F) : Type 0 where
    pub cpu_enough : cpu_millis ≤ℤ (plan_capacity p).cpu_millis
    pub ram_enough : ram_mb ≤ℤ (plan_capacity p).ram_mb

  -- Upwards the plan has more CPU or more memory than the current one, downwards less of either.
  abbrev pub GoesTo : ScalingDirection → Requirements → Plan F → Type 0
  GoesTo direction_any r p = Unit
  GoesTo direction_up r p = (r.current_cpu <ℤ p.cpu) ⊎ (r.current_ram <ℤ p.ram)
  GoesTo direction_down r p = (p.cpu <ℤ r.current_cpu) ⊎ (p.ram <ℤ r.current_ram)

  pub record IsEligible (c : ResourceConstraints) (r : Requirements) (way : ScalingDirection)
      (p : Plan F) : Type 0 where
    pub within : IsWithin c p
    pub room : HasRoom r.required_cpu_millis r.required_ram_mb p
    pub ssd_enough : r.required_ssd_gb ≤ℤ p.ssd
    pub direction : GoesTo way r p

  pub meets_constraints-IsWithin :
      (c : ResourceConstraints) (p : Plan F) → meets_constraints c p ≡ true → IsWithin c p
  unfolding meets_constraints
  meets_constraints-IsWithin c p h = record {
    not_excluded = ground arith;
    min_cpu_le = ltb_ℤ→le p.cpu c.min_cpu (ground arith);
    cpu_le_max = ltb_ℤ→le c.max_cpu p.cpu (ground arith);
    min_ram_le = ltb_ℤ→le p.ram c.min_ram (ground arith);
    ram_le_max = ltb_ℤ→le c.max_ram p.ram (ground arith);
    min_ssd_le = ltb_ℤ→le p.ssd c.min_ssd (ground arith);
  }

  pub has_capacity-HasRoom :
      (cpu_millis ram_mb : ℤ) (p : Plan F)
      → has_capacity cpu_millis ram_mb p ≡ true
      → HasRoom cpu_millis ram_mb p
  unfolding has_capacity
  has_capacity-HasRoom cpu_millis ram_mb p h = record {
    cpu_enough = ltb_ℤ→le (plan_capacity p).cpu_millis cpu_millis (ground arith);
    ram_enough = ltb_ℤ→le (plan_capacity p).ram_mb ram_mb (ground arith);
  }

  direction_allows-GoesTo :
      (way : ScalingDirection) (r : Requirements) (p : Plan F)
      → direction_allows way r.current_cpu r.current_ram p ≡ true
      → GoesTo way r p
  unfolding direction_allows
  direction_allows-GoesTo direction_any r p h = tt
  direction_allows-GoesTo direction_up r p h = elim (Bool-cases (leb_ℤ p.cpu r.current_cpu)) [
    | inr e ↦ inl (leb_ℤ→lt p.cpu r.current_cpu e)
    | inl e ↦ inr (leb_ℤ→lt p.ram r.current_ram (ground arith))
  ]
  direction_allows-GoesTo direction_down r p h = elim (Bool-cases (leb_ℤ r.current_cpu p.cpu)) [
    | inr e ↦ inl (leb_ℤ→lt r.current_cpu p.cpu e)
    | inl e ↦ inr (leb_ℤ→lt r.current_ram p.ram (ground arith))
  ]

  pub is_candidate-IsEligible :
      (c : ResourceConstraints) (r : Requirements) (way : ScalingDirection) (p : Plan F)
      → is_candidate c r way p ≡ true
      → IsEligible c r way p
  unfolding is_candidate
  is_candidate-IsEligible c r way p h = record {
    within = meets_constraints-IsWithin c p (ground arith);
    room = has_capacity-HasRoom r.required_cpu_millis r.required_ram_mb p (ground arith);
    ssd_enough = ltb_ℤ→le p.ssd r.required_ssd_gb (ground arith);
    direction = direction_allows-GoesTo way r p (ground arith);
  }
