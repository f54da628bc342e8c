-- ===== src/Utilization/Calculator.antt =====
-- internal/utilization/calculator.go: `Calculate`.
use vpsie_k8s_capi_autoscale.Base.{
  ℤ, pos, add64, ltb_ℤ, String, ◌<>◌, true, false, none, some, List, [], ◌∷◌, ◌++◌, map, Dict,
  lookup, insert, Result, ok, err, if◌then◌else◌,
}
use vpsie_k8s_capi_autoscale.Cluster.{Container, Pod, Node, NodeMetrics}
use vpsie_k8s_capi_autoscale.Float.{Float64, nought}
use vpsie_k8s_capi_autoscale.Plan.{NodeUtilization}
use vpsie_k8s_capi_autoscale.World.{Calls, Env, list_nodes, list_pods, get_node_metrics}
use vpsie_k8s_capi_autoscale.Utilization.Thresholds.{UtilizationResult}

-- `m[k]` of the map of pods by node, nil on a missing key.
abbrev pub pods_at : String → Dict (List Pod) → List Pod
pods_at name m = elim (lookup name m) [ none ↦ [] | some pods ↦ pods ]

-- The loop that fills `podsByNode`.
unfoldable pub group_pods : List Pod → Dict (List Pod) → Dict (List Pod)
group_pods [] m = m
group_pods (pod ∷ pods) m =
    group_pods pods (insert pod.node_name (pods_at pod.node_name m ++ (pod ∷ [])) m)

-- CPU and memory, summed up.
pub record Amount : Type 0 where
  pub cpu : ℤ
  pub ram : ℤ

abbrev pub no_amount : Amount
no_amount = record { cpu = pos 0; ram = pos 0 }

abbrev pub plus : Amount → ℤ → ℤ → Amount
plus a cpu ram = record { cpu = add64 a.cpu cpu; ram = add64 a.ram ram }

unfoldable pub request_containers : Amount → List Container → Amount
request_containers a [] = a
request_containers a (c ∷ cs) = request_containers (plus a c.cpu_millis c.memory_bytes) cs

-- The loop over the init containers changes no variable, and is left out.
unfoldable pub request_pods : Amount → List Pod → Amount
unfolding request_containers
request_pods a [] = a
request_pods a (pod ∷ pods) = request_pods (request_containers a pod.containers) pods

unfoldable pub utilization_of : Node → List Pod → NodeUtilization
unfolding request_pods
utilization_of node node_pods =
    let requested = request_pods no_amount node_pods in
    record {
      node_name = node.name;
      allocatable_cpu = node.allocatable_cpu;
      allocatable_ram = node.allocatable_memory;
      requested_cpu = requested.cpu;
      requested_ram = requested.ram;
      labels = node.labels;
      taints = node.taints;
      pods = node_pods;
    }

unfoldable pub utilizations : List Node → Dict (List Pod) → List NodeUtilization
unfolding utilization_of
utilizations [] by_node = []
utilizations (node ∷ nodes) by_node =
    utilization_of node (pods_at node.name by_node) ∷ utilizations nodes by_node

unfoldable pub total_allocatable : Amount → List NodeUtilization → Amount
total_allocatable a [] = a
total_allocatable a (n ∷ ns) = total_allocatable (plus a n.allocatable_cpu n.allocatable_ram) ns

unfoldable pub total_requested : Amount → List NodeUtilization → Amount
total_requested a [] = a
total_requested a (n ∷ ns) = total_requested (plus a n.requested_cpu n.requested_ram) ns

unfoldable pub total_usage : Amount → List NodeMetrics → Amount
total_usage a [] = a
total_usage a (m ∷ ms) = total_usage (plus a m.usage_cpu m.usage_memory) ms

-- The calls of a computation, and its result.
abbrev pub Calculation : Type 0 → Type 0
Calculation F = Calls × Result (UtilizationResult F)

module _ {F : Type 0} ⦃f : Float64 F⦄ where
  open f use {div, mul, of_int}

  -- A percentage is computed only of a positive total.
  unfoldable pub percent : ℤ → ℤ → F
  percent part whole =
      if ltb_ℤ (pos 0) whole
      then mul (div (of_int part) (of_int whole)) (of_int (pos 100))
      else nought

  -- The result before the metrics are asked for.
  unfoldable pub scheduled_result : List NodeUtilization → UtilizationResult F
  unfolding percent total_requested total_allocatable
  scheduled_result ns =
      let allocatable = total_allocatable no_amount ns in
      let requested = total_requested no_amount ns in
      record {
        scheduled_cpu_percent = percent requested.cpu allocatable.cpu;
        scheduled_memory_percent = percent requested.ram allocatable.ram;
        actual_cpu_percent = nought;
        actual_memory_percent = nought;
        metrics_available = false;
        nodes = ns;
        source = "requests";
      }

  unfoldable pub with_metrics : UtilizationResult F → List NodeMetrics → UtilizationResult F
  unfolding percent total_usage total_allocatable
  with_metrics r [] = r
  with_metrics r (m ∷ ms) =
      let allocatable = total_allocatable no_amount r.nodes in
      let usage = total_usage no_amount (m ∷ ms) in
      record r {
        metrics_available = true;
        source = "both";
        actual_cpu_percent = percent usage.cpu allocatable.cpu;
        actual_memory_percent = percent usage.ram allocatable.ram;
      }

  module _ (env : Env) where
    unfoldable pub calculate_metrics : Calls → List String → UtilizationResult F → Calculation F
    unfolding with_metrics
    calculate_metrics calls names r =
        let calls = get_node_metrics names ∷ calls in
        elim (env.node_metrics calls) [
          | err _ ↦ (calls, ok r)
          | ok metrics ↦ (calls, ok (with_metrics r metrics))
        ]

    unfoldable pub calculate_nodes : Calls → List Node → Calculation F
    unfolding calculate_metrics scheduled_result utilizations group_pods
    calculate_nodes calls nodes =
        let names = map (λ n. n.name) nodes in
        let calls = list_pods names ∷ calls in
        elim (env.pods calls) [
          | err e ↦ (calls, err ("listing pods: " <> e))
          | ok pods ↦
              calculate_metrics calls names
                (scheduled_result (utilizations nodes (group_pods pods [])))
        ]

    unfoldable pub calculate : Calls → String → Calculation F
    unfolding calculate_nodes
    calculate calls name =
        let calls = list_nodes name ∷ calls in
        elim (env.nodes calls) [
          | err e ↦ (calls, err ("listing nodes: " <> e))
          | ok [] ↦ (calls, err ("no nodes found for MachineDeployment " <> name))
          | ok (n ∷ ns) ↦ calculate_nodes calls (n ∷ ns)
        ]
