-- ===== src/Scheduler/Total.antt =====
-- When the simulation of internal/scheduler/simulator.go does not panic.
use vpsie_k8s_capi_autoscale.Base.{
  ℤ, ◌≡◌, ◌≢◌, refl, inl, inr, String, Bool, true, false, Option, none, some, List, [], ◌∷◌, ◌++◌,
  Dict, lookup, ltb_ℤ, Option-cases, Bool-cases, arith, cond_cases, leb_ℤ, pos, pos_part, replicate,
}
use vpsie_k8s_capi_autoscale.Cluster.{Pod, NodeSelectorRequirement, NodeSelectorTerm, Affinity}
use vpsie_k8s_capi_autoscale.Plan.{Plan, NodeUtilization}
use vpsie_k8s_capi_autoscale.Scheduler.Matching.{
  ParseQuantity, compare_quantities, match_expression, matches_expressions,
  matches_node_selector_term, matches_terms, matches_required_node_affinity,
}
use vpsie_k8s_capi_autoscale.Scheduler.FirstFit.{Verdict-cases, Placement-cases}
use vpsie_k8s_capi_autoscale.Scheduler.Packing.{
  SortSlice, VirtualNode, BlockingPod, Reason, panics, crashed, check_node, place, pack,
  simulate_downscale, larger_first, collect_pods, virtual_node, alloc_cpu, alloc_memory, blocker,
  no_reason,
}

-- Every text is a quantity.
abbrev pub IsTotal : ParseQuantity → Type 0
IsTotal parse = (s : String) → (q : ℤ) × (parse s ≡ some q)

-- It is not a panic.
abbrev pub Answers : {A : Type 0} → Option A → Type 0
Answers {A} o = (a : A) × (o ≡ some a)

module _ (parse : ParseQuantity) (total : IsTotal parse) where
  compare_quantities-Answers :
      (test : ℤ → ℤ → Bool) (value : Option String) (values : List String)
      → Answers (compare_quantities parse test value values)
  unfolding compare_quantities
  compare_quantities-Answers test none values = (false, refl)
  compare_quantities-Answers test (some value) [] = (false, refl)
  compare_quantities-Answers test (some value) (v ∷ vs) =
      let (a, e) = total value in
      let (b, e') = total v in (test a b, rw (compare_quantities, e, e') refl)

  match_expression-Answers :
      (expr : NodeSelectorRequirement) (labels : Dict String)
      → Answers (match_expression parse expr labels)
  unfolding match_expression
  match_expression-Answers expr labels = elim (Option-cases (match_expression parse expr labels)) [
    | inr answer ↦ answer
    | inl panic ↦
        let value = lookup expr.key labels in
        let (above, e) = compare_quantities-Answers (λ a b. ltb_ℤ b a) value expr.values in
        let (below, e') = compare_quantities-Answers ltb_ℤ value expr.values in
        absurd (ground arith)
  ]

  matches_expressions-Answers :
      (exprs : List NodeSelectorRequirement) (labels : Dict String)
      → Answers (matches_expressions parse exprs labels)
  unfolding matches_expressions
  matches_expressions-Answers [] labels = (true, refl)
  matches_expressions-Answers (x ∷ xs) labels =
      let (matches, e) = match_expression-Answers x labels in
      elim (Bool-cases matches) [
        | inl all ↦ rw (matches_expressions, e, all) (matches_expressions-Answers xs labels)
        | inr fails ↦ (false, rw (matches_expressions, e, fails) refl)
      ]

  matches_terms-Answers :
      (terms : List NodeSelectorTerm) (labels : Dict String)
      → Answers (matches_terms parse terms labels)
  unfolding matches_terms matches_node_selector_term
  matches_terms-Answers [] labels = (false, refl)
  matches_terms-Answers (x ∷ xs) labels =
      let (matches, e) = matches_expressions-Answers x.match_expressions labels in
      elim (Bool-cases matches) [
        | inl all ↦ (true, rw (matches_terms, matches_node_selector_term, e, all) refl)
        | inr fails ↦
            rw (matches_terms, matches_node_selector_term, e, fails)
              (matches_terms-Answers xs labels)
      ]

  matches_required_node_affinity-Answers :
      (affinity : Option Affinity) (labels : Dict String)
      → Answers (matches_required_node_affinity parse affinity labels)
  unfolding matches_required_node_affinity
  matches_required_node_affinity-Answers none labels = (true, refl)
  matches_required_node_affinity-Answers (some affinity) labels =
      elim (Option-cases affinity.node_affinity) [
        | inl e ↦ (true, rw (matches_required_node_affinity, e) refl)
        | inr (node_affinity, e) ↦ elim (Option-cases node_affinity.required_terms) [
          | inl e' ↦ (true, rw (matches_required_node_affinity, e, e') refl)
          | inr (terms, e') ↦
              rw (matches_required_node_affinity, e, e') (matches_terms-Answers terms labels)
        ]
      ]

  check_node-runs : (pod : Pod) (vn : VirtualNode) → check_node parse pod vn ≢ panics
  unfolding check_node
  check_node-runs pod vn panic =
      let (matches, e) = matches_required_node_affinity-Answers pod.affinity vn.labels in
      ground arith

  place-runs :
      (pod : Pod) (vns : List VirtualNode) (last : Reason) → place parse pod vns last ≢ crashed
  unfolding place
  place-runs pod [] last crash = ground arith
  place-runs pod (vn ∷ vns) last crash = elim (Verdict-cases (check_node parse pod vn)) [
    | inl e ↦ ground arith
    | inr (inl e) ↦ check_node-runs pod vn e
    | inr (inr (r, e)) ↦
        let later = place-runs pod vns r in
        elim (Placement-cases (place parse pod vns r)) [
          | inl (vns', e') ↦ ground arith
          | inr (inl (r', e')) ↦ ground arith
          | inr (inr e') ↦ later e'
        ]
  ]

  pack-Answers :
      (pods : List Pod) (vns : List VirtualNode) (blocking : List BlockingPod)
      → Answers (pack parse pods vns blocking)
  unfolding pack
  pack-Answers [] vns blocking = (blocking, refl)
  pack-Answers (pod ∷ pods) vns blocking = elim (Placement-cases (place parse pod vns no_reason)) [
    | inl (vns', e) ↦ rw (pack, e) (pack-Answers pods vns' blocking)
    | inr (inl (r, e)) ↦ rw (pack, e) (pack-Answers pods vns (blocking ++ (blocker pod r ∷ [])))
    | inr (inr e) ↦ absurd (place-runs pod vns no_reason e)
  ]

  pub simulate_downscale-Answers :
      {F : Type 0} (sort_slice : SortSlice) (nodes : List NodeUtilization) (plan : Plan F)
      (node_count : ℤ)
      → Answers (simulate_downscale parse sort_slice nodes plan node_count)
  unfolding simulate_downscale
  simulate_downscale-Answers sort_slice nodes plan node_count =
      let pods = sort_slice larger_first (collect_pods nodes) in
      let vnodes =
        replicate (pos_part node_count) (virtual_node nodes (alloc_cpu plan) (alloc_memory plan)) in
      let (blocking, e) = pack-Answers pods vnodes [] in
      cond_cases Answers (leb_ℤ node_count (pos 0)) (_, refl) (rw e (_, refl))
