-- ===== src/Utilization/Grouping.antt =====
-- On `Calculate` and `EvaluateThresholds` of internal/utilization/calculator.go.
use mathlib.Core.List.{append-nil, append_assoc}
use vpsie_k8s_capi_autoscale.Base.{
  ℤ, pos, add64, ◌≡◌, ◌≢◌, ◌∙◌, ap, sym, refl, inl, inr, true, false, String, List, [], ◌∷◌, ◌++◌,
  map, keep, Dict, insert, lookup-insert, ok, ==_true, Result-cases, Bool-cases, arith,
  if◌then◌else◌, ◌==◌, string_eq,
}
use vpsie_k8s_capi_autoscale.Cluster.{Container, Pod, Node, NodeMetrics}
use vpsie_k8s_capi_autoscale.Plan.{NodeUtilization}
use vpsie_k8s_capi_autoscale.Float.{Float64, IsOrdered}
use vpsie_k8s_capi_autoscale.World.{Calls, Env, get_node_metrics, list_nodes, list_pods}
use vpsie_k8s_capi_autoscale.Utilization.Thresholds.{UtilizationResult, evaluate_thresholds}
use vpsie_k8s_capi_autoscale.Utilization.Calculator.{
  pods_at, group_pods, Amount, no_amount, plus, request_pods, request_containers, utilization_of,
  utilizations, scheduled_result, with_metrics, calculate_metrics, calculate_nodes, calculate,
}

-- The pods that run on the node of a name.
abbrev pub pods_on : String → List Pod → List Pod
pods_on name pods = keep (λ pod. pod.node_name == name) pods

pods_at-insert :
    (name other : String) (pods : List Pod) (m : Dict (List Pod))
    → pods_at name (insert other pods m) ≡ (if name == other then pods else pods_at name m)
pods_at-insert name other pods m = let x = lookup-insert name other pods m in ground arith

pods_at-group_pods :
    (name : String) (pods : List Pod) (m : Dict (List Pod))
    → pods_at name (group_pods pods m) ≡ pods_at name m ++ pods_on name pods
unfolding group_pods
pods_at-group_pods name [] m = sym (append-nil (pods_at name m))
pods_at-group_pods name (pod ∷ pods) m =
    let rest =
      pods_at-group_pods name pods
        (insert pod.node_name (pods_at pod.node_name m ++ (pod ∷ [])) m) in
    let entry = pods_at-insert name pod.node_name (pods_at pod.node_name m ++ (pod ∷ [])) m in
    let regroup = append_assoc (pods_at name m) (pod ∷ []) (pods_on name pods) in
    elim (Bool-cases (pod.node_name == name)) [
      | inl e ↦
          let same : pod.node_name ≡ name = ==_true pod.node_name name e in
          let there : (name == pod.node_name) ≡ true = ground arith in
          let before : pods_at pod.node_name m ≡ pods_at name m = ap (λ x. pods_at x m) same in
          ground arith
      | inr e ↦ let there : (name == pod.node_name) ≡ false = ground arith in ground arith
    ]

-- The containers of pods, and 64-bit sums from an amount on.
abbrev pub containers_of : List Pod → List Container
containers_of [] = []
containers_of (pod ∷ pods) = pod.containers ++ containers_of pods

abbrev pub sum64 : ℤ → List ℤ → ℤ
sum64 total [] = total
sum64 total (n ∷ ns) = sum64 (add64 total n) ns

-- The load of a node by these pods: the sums of what their containers request.
abbrev pub load_of : Node → List Pod → NodeUtilization
load_of node pods = record {
  node_name = node.name;
  allocatable_cpu = node.allocatable_cpu;
  allocatable_ram = node.allocatable_memory;
  requested_cpu = sum64 (pos 0) (map (λ c. c.cpu_millis) (containers_of pods));
  requested_ram = sum64 (pos 0) (map (λ c. c.memory_bytes) (containers_of pods));
  labels = node.labels;
  taints = node.taints;
  pods = pods;
}

request_containers-sums :
    (a : Amount) (cs : List Container) (pods : List Pod)
    → request_pods (request_containers a cs) pods ≡ record {
      cpu = sum64 a.cpu (map (λ c. c.cpu_millis) (cs ++ containers_of pods));
      ram = sum64 a.ram (map (λ c. c.memory_bytes) (cs ++ containers_of pods));
    }
unfolding request_pods request_containers
request_containers-sums a (c ∷ cs) pods =
    request_containers-sums (plus a c.cpu_millis c.memory_bytes) cs pods
request_containers-sums a [] [] = refl
request_containers-sums a [] (pod ∷ pods) = request_containers-sums a pod.containers pods

utilization_of-load : (n : Node) (pods : List Pod) → utilization_of n pods ≡ load_of n pods
unfolding utilization_of request_containers
utilization_of-load n pods =
    let sums = request_containers-sums no_amount [] pods in rw (sums, utilization_of) refl

utilizations-by_node :
    (nodes : List Node) (pods : List Pod)
    → utilizations nodes (group_pods pods []) ≡ map (λ n. load_of n (pods_on n.name pods)) nodes
unfolding utilizations
utilizations-by_node [] pods = refl
utilizations-by_node (n ∷ nodes) pods =
    let grouped : pods_at n.name (group_pods pods []) ≡ pods_on n.name pods =
      pods_at-group_pods n.name pods [] in
    let load = utilization_of-load n (pods_on n.name pods) in
    let rest = utilizations-by_node nodes pods in cc

module _ {F : Type 0} ⦃f : Float64 F⦄ where
  with_metrics-nodes :
      (r : UtilizationResult F) (ms : List NodeMetrics) → (with_metrics r ms).nodes ≡ r.nodes
  unfolding with_metrics
  with_metrics-nodes r [] = refl
  with_metrics-nodes r (m ∷ ms) = refl

  calculate_metrics-nodes :
      (env : Env) (calls : Calls) (names : List String) (r : UtilizationResult F)
      → (out : UtilizationResult F) × ((calculate_metrics env calls names r).1 ≡ ok out)
        × (out.nodes ≡ r.nodes)
  unfolding calculate_metrics
  calculate_metrics-nodes env calls names r =
      elim (Result-cases (env.node_metrics (get_node_metrics names ∷ calls))) [
        | inl (ms, given) ↦ (with_metrics r ms, ground arith, with_metrics-nodes r ms)
        | inr (e, failed) ↦ (r, ground arith, refl)
      ]

  calculate_nodes-nodes :
      (env : Env) (calls : Calls) (nodes : List Node) (pods : List Pod)
      → env.pods (list_pods (map (λ n. n.name) nodes) ∷ calls) ≡ ok pods
      → (out : UtilizationResult F) × ((calculate_nodes env calls nodes).1 ≡ ok out)
        × (out.nodes ≡ map (λ n. load_of n (pods_on n.name pods)) nodes)
  unfolding calculate_nodes
  calculate_nodes-nodes env calls nodes pods e =
      let by_node = utilizations-by_node nodes pods in
      let (out, done, kept) =
        calculate_metrics-nodes env (list_pods (map (λ n. n.name) nodes) ∷ calls)
          (map (λ n. n.name) nodes) (scheduled_result (utilizations nodes (group_pods pods []))) in
      (out, ground arith, kept ∙ by_node)

  -- When the listing of the nodes gives some and the listing of the pods succeeds, `Calculate`
  -- succeeds, whether or not there are metrics, and accounts to each node, in the order of the
  -- listing, exactly the listed pods whose node name is the node's, in their order: what the node
  -- has requested is the 64-bit sum of the requests of all their containers, and the rest of its
  -- entry is its own.
  pub calculate-nodes :
      (env : Env) (calls : Calls) (name : String) (n : Node) (ns : List Node) (pods : List Pod)
      → env.nodes (list_nodes name ∷ calls) ≡ ok (n ∷ ns)
      → env.pods (list_pods (map (λ n. n.name) (n ∷ ns)) ∷ list_nodes name ∷ calls) ≡ ok pods
      → (out : UtilizationResult F) × ((calculate env calls name).1 ≡ ok out)
        × (out.nodes ≡ map (λ n. load_of n (pods_on n.name pods)) (n ∷ ns))
  unfolding calculate
  calculate-nodes env calls name n ns pods listed e =
      let (out, done, kept) = calculate_nodes-nodes env (list_nodes name ∷ calls) (n ∷ ns) pods e in
      (out, rw (listed, calculate) done, kept)

  -- With floats in a strict partial order and a downscale threshold that is not above the upscale
  -- threshold: without metrics, no load is both above the one and below the other.
  pub evaluate_thresholds-not_both :
      (laws : IsOrdered F) (r : UtilizationResult F) (up down : ℤ)
      → r.metrics_available ≡ false
      → f.lt (f.of_int up) (f.of_int down) ≡ false
      → evaluate_thresholds r up down ≢ (true, true)
  unfolding evaluate_thresholds
  evaluate_thresholds-not_both laws r up down h e both =
      let cpu = laws.lt_trans (f.of_int up) r.scheduled_cpu_percent (f.of_int down) in
      let memory = laws.lt_trans (f.of_int up) r.scheduled_memory_percent (f.of_int down) in
      ground arith
