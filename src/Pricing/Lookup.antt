-- ===== src/Pricing/Lookup.antt =====
-- What the cache holds after a refresh, and what is found in it.
use Prim.Native.Char.{Char}
use mathlib.Core.Path.{subst}
use mathlib.Core.List.{Mem, mem-cons_self, mem-cons_of_mem}
use vpsie_k8s_capi_autoscale.Base.{
  ◌≡◌, ◌∙◌, ap, sym, ◌⊎◌, inl, inr, true, false, String, none, some, List, [], ◌∷◌, All,
  All-keep_if, All-map, All-Mem, contains, Bool-cases, Option-cases, arith, ◌==◌, string_eq,
  ==_true,
}
use vpsie_k8s_capi_autoscale.Plan.{Plan}
use vpsie_k8s_capi_autoscale.Pricing.Cache.{
  Cache, find_plan, find_plan_by_id, resolve_category_id, allowed_ids, plans_of,
}

module _ {F : Type 0} where
  find_plan-Mem :
      (id : String) (ps : List (Plan F)) (p : Plan F)
      → find_plan id ps ≡ some p
      → Mem p ps × (p.identifier ≡ id)
  unfolding find_plan
  find_plan-Mem id (q ∷ ps) p h = elim (Bool-cases (q.identifier == id)) [
    | inl e ↦
        let same : q ≡ p = ground arith in
        (
          subst (λ x. Mem x (q ∷ ps)) same mem-cons_self,
          subst (λ x. x.identifier ≡ id) same (==_true q.identifier id e),
        )
    | inr e ↦
        let (found, named) = find_plan-Mem id ps p (ground arith) in
        (mem-cons_of_mem q found, named)
  ]
  find_plan-Mem id [] p h = ground arith

  find_plan-none :
      (id : String) (ps : List (Plan F))
      → find_plan id ps ≡ none
      → All (λ p. (p.identifier == id) ≡ false) ps
  unfolding find_plan
  find_plan-none id [] h = tt
  find_plan-none id (q ∷ ps) h = elim (Bool-cases (q.identifier == id)) [
    | inl e ↦ ground arith
    | inr e ↦ (e, find_plan-none id ps (ground arith))
  ]

  -- `FindPlanByID` finds a cached plan of the identifier, and fails only if no cached plan has it.
  pub find_plan_by_id-IsFound :
      (c : Cache F) (id : String)
      → ((p : Plan F) × (find_plan_by_id c id ≡ some p) × Mem p c.plans × (p.identifier ≡ id))
        ⊎ ((find_plan_by_id c id ≡ none) × All (λ p. (p.identifier == id) ≡ false) c.plans)
  unfolding find_plan_by_id
  find_plan_by_id-IsFound c id = elim (Option-cases (find_plan id c.plans)) [
    | inl e ↦ inr (e, find_plan-none id c.plans e)
    | inr (p, e) ↦ let (found, named) = find_plan-Mem id c.plans p e in inl (p, e, found, named)
  ]

  module _ (lower_rune : Char → Char) where
    allowed_ids-contains :
        (c : Cache F) (id : String) (names : List String)
        → contains id (allowed_ids lower_rune c names) ≡ true
        → (name : String) × Mem name names × (resolve_category_id lower_rune c name ≡ some id)
    unfolding allowed_ids
    allowed_ids-contains c id [] h = ground arith
    allowed_ids-contains c id (name ∷ names) h =
        elim (Option-cases (resolve_category_id lower_rune c name)) [
          | inl e ↦
              let (n, found, known) = allowed_ids-contains c id names (ground arith) in
              (n, mem-cons_of_mem name found, known)
          | inr (j, e) ↦ elim (Bool-cases (id == j)) [
            | inl same ↦ (name, mem-cons_self, e ∙ ap some (sym (==_true id j same)))
            | inr other ↦
                let (n, found, known) = allowed_ids-contains c id names (ground arith) in
                (n, mem-cons_of_mem name found, known)
          ]
        ]

    -- With a filter of category names, `Plans` returns only cached plans, each as it is cached, of
    -- categories whose lower-case name the cache maps, from one of the names of the filter.
    pub plans_of-IsAllowed :
        (c : Cache F) (name : String) (names : List String)
        → All
            (λ p.
              (n : String) × Mem p c.plans
              × Mem n (name ∷ names)
              × (resolve_category_id lower_rune c n ≡ some p.category_id))
            (plans_of lower_rune c (name ∷ names))
    unfolding plans_of
    plans_of-IsAllowed c name names =
        All-keep_if
          (λ p.
            (n : String) × Mem p c.plans
            × Mem n (name ∷ names)
            × (resolve_category_id lower_rune c n ≡ some p.category_id))
          (λ p. contains p.category_id (allowed_ids lower_rune c (name ∷ names))) c.plans
          (All-map
            (λ p cached h.
              let (n, named, known) = allowed_ids-contains c p.category_id (name ∷ names) h in
              (n, cached, named, known))
            c.plans (All-Mem c.plans))
