-- ===== src/NodePool/Cheapest.antt =====
-- On `findCheapestFittingPlan` of internal/controller/nodepool.go.
use mathlib.Core.Path.{subst}
use mathlib.Core.List.{Mem, mem-cons_self, mem-cons_of_mem}
use vpsie_k8s_capi_autoscale.Base.{
  ℤ, ◌≡◌, sym, ◌∙◌, refl, ◌⊎◌, inl, inr, true, false, Option, none, some, List, [], ◌∷◌, All,
  All-keep_if, keep, Bool-cases, arith, if◌then◌else◌,
}
use vpsie_k8s_capi_autoscale.Float.{Float64, IsOrdered}
use vpsie_k8s_capi_autoscale.Plan.{Plan}
use vpsie_k8s_capi_autoscale.Policy.{ResourceConstraints}
use vpsie_k8s_capi_autoscale.NodePool.Fit.{
  is_fitting_plan, cheaper, scan_cheapest, find_cheapest_fitting_plan,
}
use vpsie_k8s_capi_autoscale.Selector.Eligible.{
  IsWithin, HasRoom, meets_constraints-IsWithin, has_capacity-HasRoom,
}

module _ {F : Type 0} where
  is_fitting_plan-Fits :
      (c : ResourceConstraints) (cpu_millis ram_mb : ℤ) (p : Plan F)
      → is_fitting_plan c cpu_millis ram_mb p ≡ true
      → IsWithin c p × HasRoom cpu_millis ram_mb p
  unfolding is_fitting_plan
  is_fitting_plan-Fits c cpu_millis ram_mb p h = (
    meets_constraints-IsWithin c p (ground arith),
    has_capacity-HasRoom cpu_millis ram_mb p (ground arith),
  )

module _ {F : Type 0} ⦃f : Float64 F⦄ where
  -- There is a plan, and the price is not below its price.
  abbrev pub IsCovered : F → Option (Plan F) → Type 0
  IsCovered price best = (b : Plan F) × (best ≡ some b) × (f.lt price b.price_monthly ≡ false)

module _ {F : Type 0} ⦃f : Float64 F⦄ (c : ResourceConstraints) (cpu_millis ram_mb : ℤ) where
  open f use {lt}

  -- One round of the loop.
  abbrev round : Plan F → Option (Plan F) → Option (Plan F)
  round p best = if is_fitting_plan c cpu_millis ram_mb p then some (cheaper best p) else best

  round-cases :
      (p : Plan F) (best : Option (Plan F))
      → (round p best ≡ best)
        ⊎ ((round p best ≡ some p) × (is_fitting_plan c cpu_millis ram_mb p ≡ true))
  unfolding cheaper
  round-cases p none = ground arith
  round-cases p (some b) = ground arith

  abbrev IsFrom : List (Plan F) → Option (Plan F) → Option (Plan F) → Type 0
  IsFrom ps best out =
      (out ≡ best)
      ⊎ ((p : Plan F) × (out ≡ some p) × Mem p ps × (is_fitting_plan c cpu_millis ram_mb p ≡ true))

  scan_cheapest-IsFrom :
      (ps : List (Plan F)) (best : Option (Plan F))
      → IsFrom ps best (scan_cheapest c cpu_millis ram_mb ps best)
  unfolding scan_cheapest
  scan_cheapest-IsFrom [] best = inl refl
  scan_cheapest-IsFrom (p ∷ ps) best = elim (scan_cheapest-IsFrom ps (round p best)) [
    | inl same ↦ elim (round-cases p best) [
      | inl e ↦ inl (same ∙ e)
      | inr (e, fits) ↦ inr (p, same ∙ e, mem-cons_self, fits)
    ]
    | inr (q, e, found, fits) ↦ inr (q, e, mem-cons_of_mem p found, fits)
  ]

  -- What holds of all plans and of the best so far holds of the plan that is found.
  scan_cheapest-All {ℓ} :
      (P : Plan F → Type ℓ) (ps : List (Plan F)) (best : Option (Plan F))
      → All P ps
      → ((b : Plan F) → best ≡ some b → P b)
      → (q : Plan F) → scan_cheapest c cpu_millis ram_mb ps best ≡ some q
      → P q
  unfolding scan_cheapest
  scan_cheapest-All P [] best hs h q e = h q e
  scan_cheapest-All P (p ∷ ps) best (k, hs) h q e =
      scan_cheapest-All P ps (round p best) hs
        (λ b e'. elim (round-cases p best) [
          | inl same ↦ h b (sym same ∙ e')
          | inr (taken, _) ↦ let new : p ≡ b = ground arith in subst P new k
        ])
        q e

  module _ (laws : IsOrdered F) where
    lt-not_lt :
        (x : F) (p b : Plan F)
        → lt x b.price_monthly ≡ false
        → lt p.price_monthly b.price_monthly ≡ true
        → lt x p.price_monthly ≡ false
    lt-not_lt x p b same below = elim (Bool-cases (lt x p.price_monthly)) [
      | inr e ↦ e
      | inl e ↦
          let worse : lt x b.price_monthly ≡ true =
            laws.lt_trans x p.price_monthly b.price_monthly e below in
          ground arith
    ]

    round-covers :
        (p : Plan F) (best : Option (Plan F)) (x : F)
        → IsCovered x best
        → IsCovered x (round p best)
    unfolding cheaper
    round-covers p none x h = ground arith
    round-covers p (some b) x (d, e, above) =
        let same : lt x b.price_monthly ≡ false = ground arith in
        elim (Bool-cases (is_fitting_plan c cpu_millis ram_mb p)) [
          | inr skipped ↦ (b, ground arith, same)
          | inl fits ↦ elim (Bool-cases (lt p.price_monthly b.price_monthly)) [
            | inr dearer ↦ (b, ground arith, same)
            | inl below ↦ (p, ground arith, lt-not_lt x p b same below)
          ]
        ]

    round-covers_self :
        (p : Plan F) (best : Option (Plan F))
        → is_fitting_plan c cpu_millis ram_mb p ≡ true
        → IsCovered p.price_monthly (round p best)
    unfolding cheaper
    round-covers_self p none h = let x = laws.lt_irrefl p.price_monthly in (p, ground arith, x)
    round-covers_self p (some b) h = elim (Bool-cases (lt p.price_monthly b.price_monthly)) [
      | inl below ↦ (p, ground arith, laws.lt_irrefl p.price_monthly)
      | inr dearer ↦ (b, ground arith, dearer)
    ]

    scan_cheapest-covers :
        (ps : List (Plan F)) (best : Option (Plan F)) (x : F)
        → IsCovered x best
        → IsCovered x (scan_cheapest c cpu_millis ram_mb ps best)
    unfolding scan_cheapest
    scan_cheapest-covers [] best x h = h
    scan_cheapest-covers (p ∷ ps) best x h =
        scan_cheapest-covers ps (round p best) x (round-covers p best x h)

    scan_cheapest-IsCovered :
        (ps : List (Plan F)) (best : Option (Plan F))
        → All
            (λ q.
              is_fitting_plan c cpu_millis ram_mb q ≡ true
              → IsCovered q.price_monthly (scan_cheapest c cpu_millis ram_mb ps best))
            ps
    unfolding scan_cheapest
    scan_cheapest-IsCovered [] best = tt
    scan_cheapest-IsCovered (p ∷ ps) best = (
      λ h. scan_cheapest-covers ps (round p best) p.price_monthly (round-covers_self p best h),
      scan_cheapest-IsCovered ps (round p best),
    )

module _ {F : Type 0} ⦃f : Float64 F⦄ where
  -- A plan that `findCheapestFittingPlan` returns is one of the given plans, lies within the policy's
  -- boundaries, and can allocate the CPU and the memory asked for.
  pub find_cheapest_fitting_plan-fits :
      (plans : List (Plan F)) (cpu_millis ram_mb : ℤ) (c : ResourceConstraints) (p : Plan F)
      → find_cheapest_fitting_plan plans cpu_millis ram_mb c ≡ some p
      → Mem p plans × IsWithin c p × HasRoom cpu_millis ram_mb p
  unfolding find_cheapest_fitting_plan
  find_cheapest_fitting_plan-fits plans cpu_millis ram_mb c p h =
      elim (scan_cheapest-IsFrom c cpu_millis ram_mb plans none) [
        | inl e ↦ ground arith
        | inr (q, e, found, fits) ↦
            let same : q ≡ p = ground arith in
            let (within, room) =
              is_fitting_plan-Fits c cpu_millis ram_mb p
                (subst (λ x. is_fitting_plan c cpu_millis ram_mb x ≡ true) same fits) in
            (subst (λ x. Mem x plans) same found, within, room)
      ]

  pub find_cheapest_fitting_plan-All {ℓ} :
      (P : Plan F → Type ℓ) (plans : List (Plan F)) (cpu_millis ram_mb : ℤ)
      (c : ResourceConstraints) (p : Plan F)
      → All P plans
      → find_cheapest_fitting_plan plans cpu_millis ram_mb c ≡ some p
      → P p
  unfolding find_cheapest_fitting_plan
  find_cheapest_fitting_plan-All P plans cpu_millis ram_mb c p hs h =
      scan_cheapest-All c cpu_millis ram_mb P plans none hs (λ b e. absurd (ground arith)) p h

  -- With floats in a strict partial order: whenever one of the given plans passes the guards of the
  -- loop, `findCheapestFittingPlan` returns a plan, and that plan is not dearer.
  pub find_cheapest_fitting_plan-cheapest :
      (laws : IsOrdered F) (plans : List (Plan F)) (cpu_millis ram_mb : ℤ) (c : ResourceConstraints)
      → All
          (λ q. IsCovered q.price_monthly (find_cheapest_fitting_plan plans cpu_millis ram_mb c))
          (keep (is_fitting_plan c cpu_millis ram_mb) plans)
  unfolding find_cheapest_fitting_plan
  find_cheapest_fitting_plan-cheapest laws plans cpu_millis ram_mb c =
      All-keep_if
        (λ q. IsCovered q.price_monthly (find_cheapest_fitting_plan plans cpu_millis ram_mb c))
        (is_fitting_plan c cpu_millis ram_mb) plans
        (scan_cheapest-IsCovered c cpu_millis ram_mb laws plans none)
