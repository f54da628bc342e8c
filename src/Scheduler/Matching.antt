-- ===== src/Scheduler/Matching.antt =====
-- internal/scheduler/simulator.go: which pods are system pods, what a pod requests, and the
-- predicates of scheduling: tolerations, node selectors and required node affinity.
use vpsie_k8s_capi_autoscale.Base.{
  ℤ, pos, add64, ltb_ℤ, String, Bool, true, false, not, ◌&&◌, ◌||◌, Option, none, some, List, [],
  ◌∷◌, Dict, lookup, index_string, contains, ◌==◌, string_eq, if◌then◌else◌,
}
use vpsie_k8s_capi_autoscale.Cluster.{
  Container, Taint, Toleration, NodeSelectorRequirement, NodeSelectorTerm, Affinity, Pod,
}

unfoldable pub is_daemon_set_pod : Pod → Bool
is_daemon_set_pod pod = contains "DaemonSet" pod.owner_kinds

unfoldable pub is_mirror_pod : Pod → Bool
is_mirror_pod pod = elim (lookup "kubernetes.io/config.mirror" pod.annotations) [
  | none ↦ false
  | some _ ↦ true
]

-- The loops over the containers, from an accumulated total.
sum_cpu : ℤ → List Container → ℤ
sum_cpu total [] = total
sum_cpu total (c ∷ cs) = sum_cpu (add64 total c.cpu_millis) cs

sum_memory : ℤ → List Container → ℤ
sum_memory total [] = total
sum_memory total (c ∷ cs) = sum_memory (add64 total c.memory_bytes) cs

unfoldable pub pod_total_cpu : Pod → ℤ
unfolding sum_cpu add64
pod_total_cpu pod = sum_cpu (pos 0) pod.containers

unfoldable pub pod_total_memory : Pod → ℤ
unfolding sum_memory add64
pod_total_memory pod = sum_memory (pos 0) pod.containers

-- An effect of a toleration covers an effect of a taint.
abbrev pub covers_effect : Toleration → Taint → Bool
covers_effect t taint = t.effect == "" || t.effect == taint.effect

-- The body of the loop of `tolerateTaint`: does this one toleration match?
unfoldable pub matches_taint : Toleration → Taint → Bool
matches_taint t taint =
    (t.operator == "Exists" && t.key == "")
    || (t.key == taint.key
        && ((t.operator == "Exists" && covers_effect t taint)
            || ((t.operator == "" || t.operator == "Equal")
                && (t.value == taint.value && covers_effect t taint))))

unfoldable pub tolerate_taint : List Toleration → Taint → Bool
tolerate_taint [] taint = false
tolerate_taint (t ∷ ts) taint = matches_taint t taint || tolerate_taint ts taint

unfoldable pub tolerates_taints : List Toleration → List Taint → Bool
tolerates_taints tolerations [] = true
tolerates_taints tolerations (taint ∷ taints) =
    let rest = tolerates_taints tolerations taints in
    if not (taint.effect == "NoSchedule") && not (taint.effect == "NoExecute")
    then rest
    else if not (tolerate_taint tolerations taint)
    then false
    else rest

-- The entries of the map in the order in which `range` gives them.
unfoldable pub matches_node_selector : Dict String → Dict String → Bool
matches_node_selector [] labels = true
matches_node_selector ((k, v) ∷ selector) labels =
    let rest = matches_node_selector selector labels in
    if not (index_string k labels == v) then false else rest

-- `resource.MustParse` of k8s.io/apimachinery, with `none` for its panic, and a quantity as a number
-- that `Cmp` orders.
abbrev pub ParseQuantity : Type 0
ParseQuantity = String → Option ℤ

module _ (parse_quantity : ParseQuantity) where
  -- The cases `Gt` and `Lt`: `labelQty.Cmp(exprQty)` is tested by `test`.
  unfoldable pub compare_quantities : (ℤ → ℤ → Bool) → Option String → List String → Option Bool
  compare_quantities test none values = some false
  compare_quantities test (some value) [] = some false
  compare_quantities test (some value) (v ∷ _) = elim (parse_quantity value) [
    | none ↦ none
    | some label ↦ elim (parse_quantity v) [ none ↦ none | some bound ↦ some (test label bound) ]
  ]

  -- `none` is a panic.
  unfoldable pub match_expression : NodeSelectorRequirement → Dict String → Option Bool
  unfolding compare_quantities
  match_expression expr labels =
      let value = lookup expr.key labels in
      if expr.operator == "In"
      then elim value [ none ↦ some false | some v ↦ some (contains v expr.values) ]
      else if expr.operator == "NotIn"
      then elim value [ none ↦ some true | some v ↦ some (not (contains v expr.values)) ]
      else if expr.operator == "Exists"
      then elim value [ none ↦ some false | some _ ↦ some true ]
      else if expr.operator == "DoesNotExist"
      then elim value [ none ↦ some true | some _ ↦ some false ]
      else if expr.operator == "Gt"
      then compare_quantities (λ a b. ltb_ℤ b a) value expr.values
      else if expr.operator == "Lt"
      then compare_quantities ltb_ℤ value expr.values
      else some true

  -- All expressions must match; the loop returns at the first that does not.
  unfoldable pub matches_expressions : List NodeSelectorRequirement → Dict String → Option Bool
  matches_expressions [] labels = some true
  matches_expressions (e ∷ es) labels = elim (match_expression e labels) [
    | none ↦ none
    | some false ↦ some false
    | some true ↦ matches_expressions es labels
  ]

  unfoldable pub matches_node_selector_term : NodeSelectorTerm → Dict String → Option Bool
  unfolding matches_expressions match_expression
  matches_node_selector_term term labels = matches_expressions term.match_expressions labels

  -- At least one term must match; the loop returns at the first that does.
  unfoldable pub matches_terms : List NodeSelectorTerm → Dict String → Option Bool
  matches_terms [] labels = some false
  matches_terms (t ∷ ts) labels = elim (matches_node_selector_term t labels) [
    | none ↦ none
    | some true ↦ some true
    | some false ↦ matches_terms ts labels
  ]

  unfoldable pub matches_required_node_affinity : Option Affinity → Dict String → Option Bool
  unfolding matches_terms matches_node_selector_term
  matches_required_node_affinity none labels = some true
  matches_required_node_affinity (some affinity) labels = elim affinity.node_affinity [
    | none ↦ some true
    | some node_affinity ↦ elim node_affinity.required_terms [
      | none ↦ some true
      | some terms ↦ matches_terms terms labels
    ]
  ]
