-- ===== src/Selector/Scan.antt =====
-- The loop over the plans in `Select` of internal/selector/selector.go.
use mathlib.Core.Path.{subst}
use mathlib.Core.List.{Mem, mem-cons_self, mem-cons_of_mem}
use vpsie_k8s_capi_autoscale.Base.{
  ◌+◌, ◌≡◌, ◌∙◌, sym, refl, ◌⊎◌, inl, inr, true, false, some, List, [], ◌∷◌, length, keep, All,
  Bool-cases, arith, if◌then◌else◌, string_eq,
}
use vpsie_k8s_capi_autoscale.Float.{Float64, IsOrdered}
use vpsie_k8s_capi_autoscale.Plan.{Plan}
use vpsie_k8s_capi_autoscale.Policy.{ResourceConstraints}
use vpsie_k8s_capi_autoscale.Pricing.Scorer.{Weights, score_plan}
use vpsie_k8s_capi_autoscale.Selector.{
  ScalingDirection, Requirements, Best, is_candidate, offer, scan_plans,
}

module _ {F : Type 0} ⦃f : Float64 F⦄ (c : ResourceConstraints) (r : Requirements)
    (way : ScalingDirection) (w : Weights F) where
  open f use {lt}

  abbrev pub score_of : Plan F → F
  score_of p = score_plan p r.required_cpu_millis r.required_ram_mb w

  -- One round of the loop.
  abbrev round : Plan F → Best F → Best F
  round p b = if is_candidate c r way p then offer (score_of p) p b else b

  -- The best plan is the one before, or a candidate that the loop has met.
  abbrev pub IsFrom : List (Plan F) → Best F → Best F → Type 0
  IsFrom ps b out =
      ((out.plan ≡ b.plan) × (out.score ≡ b.score))
      ⊎ ((p : Plan F) × (out.plan ≡ some p)
          × Mem p ps
          × (is_candidate c r way p ≡ true)
          × (out.score ≡ score_of p)
          × (lt b.score (score_of p) ≡ true))

  round-cases :
      (p : Plan F) (b : Best F)
      → (((round p b).plan ≡ b.plan) × ((round p b).score ≡ b.score))
        ⊎ (((round p b).plan ≡ some p)
            × ((round p b).score ≡ score_of p)
            × (is_candidate c r way p ≡ true)
            × (lt b.score (score_of p) ≡ true))
  unfolding offer
  round-cases p b = ground arith

  module _ (laws : IsOrdered F) where
    round-lt :
        (p : Plan F) (b : Best F) (x : F) → lt (round p b).score x ≡ true → lt b.score x ≡ true
    round-lt p b x h = elim (round-cases p b) [
      | inl (plan, score) ↦ subst (λ y. lt y x ≡ true) score h
      | inr (plan, score, candidate, better) ↦
          laws.lt_trans b.score (score_of p) x better (subst (λ y. lt y x ≡ true) score h)
    ]

    pub scan_plans-IsFrom :
        (ps : List (Plan F)) (b : Best F) → IsFrom ps b (scan_plans c r way w ps b)
    unfolding scan_plans
    scan_plans-IsFrom [] b = inl (refl, refl)
    scan_plans-IsFrom (p ∷ ps) b = elim (scan_plans-IsFrom ps (round p b)) [
      | inl (same_plan, same_score) ↦ elim (round-cases p b) [
        | inl (plan, score) ↦ inl (same_plan ∙ plan, same_score ∙ score)
        | inr (plan, score, candidate, better) ↦
            inr (p, same_plan ∙ plan, mem-cons_self, candidate, same_score ∙ score, better)
      ]
      | inr (q, plan, found, candidate, score, better) ↦
          inr (q, plan, mem-cons_of_mem p found, candidate, score, round-lt p b (score_of q) better)
    ]

    -- The score of the round is not below that of a candidate it has met.
    round-not-lt :
        (p : Plan F) (b : Best F)
        → is_candidate c r way p ≡ true
        → lt (round p b).score (score_of p) ≡ false
    unfolding offer
    round-not-lt p b h =
        let x : lt (score_of p) (score_of p) ≡ false = laws.lt_irrefl (score_of p) in ground arith

    -- Later rounds only raise the score.
    scan_plans-not-lt :
        (ps : List (Plan F)) (b : Best F) (x : F)
        → lt b.score x ≡ false
        → lt (scan_plans c r way w ps b).score x ≡ false
    scan_plans-not-lt ps b x h = elim (scan_plans-IsFrom ps b) [
      | inl (plan, score) ↦ subst (λ y. lt y x ≡ false) (sym score) h
      | inr (q, plan, found, candidate, score, better) ↦
          elim (Bool-cases (lt (scan_plans c r way w ps b).score x)) [
            | inr e ↦ e
            | inl e ↦
                let worse : lt b.score x ≡ true =
                  laws.lt_trans b.score (score_of q) x better
                    (subst (λ y. lt y x ≡ true) score e) in
                ground arith
          ]
    ]

    pub scan_plans-best :
        (ps : List (Plan F)) (b : Best F)
        → All
            (λ q.
              is_candidate c r way q ≡ true
              → lt (scan_plans c r way w ps b).score (score_of q) ≡ false)
            ps
    unfolding scan_plans
    scan_plans-best [] b = tt
    scan_plans-best (p ∷ ps) b = (
      λ h. scan_plans-not-lt ps (round p b) (score_of p) (round-not-lt p b h),
      scan_plans-best ps (round p b),
    )

  pub scan_plans-candidates :
      (ps : List (Plan F)) (b : Best F)
      → (scan_plans c r way w ps b).candidates
        ≡ b.candidates + length (keep (is_candidate c r way) ps)
  unfolding scan_plans offer
  scan_plans-candidates [] b = omega arith
  scan_plans-candidates (p ∷ ps) b =
      let rest = scan_plans-candidates ps (round p b) in ground (arith, rest)
