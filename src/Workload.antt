-- ===== src/Workload.antt =====
-- internal/workload/client.go: what a client asks of the servers of Kubernetes. As in World, the answer
-- to a request may depend on all requests before it, the newest first.
pub mod Reads
pub mod Drain
pub mod Evictions
pub mod Factory
pub mod Clients
use vpsie_k8s_capi_autoscale.Base.{String, Bool, Option, List, Dict, Result}
use vpsie_k8s_capi_autoscale.Cluster.{Pod, Node, NodeMetrics}

-- A Machine of cluster-api, with the name of its node, if that is defined.
pub record Machine : Type 0 where
  pub node_ref : Option String

pub data Request : Type 0 where
  get_kubeconfig : String → String → Request
  list_machines : String → String → Request
  get_node : String → Request
  update_node : Node → Request
  list_pods_on : String → Request
  list_pods_pending list_node_metrics : Request
  evict : String → String → Request

abbrev pub Requests : Type 0
Requests = List Request

pub record Server : Type 0 where
  pub kubeconfig : Requests → Result (Dict String)
  pub machines : Requests → Result (List Machine)
  pub node : Requests → Result Node
  pub updated : Requests → Result (Unit {0})
  pub pods : Requests → Result (List Pod)
  pub evicted : Requests → Result (Unit {0})
  pub metrics : Requests → Result (List NodeMetrics)

-- `capiWorkloadClient`: `config` is the kubeconfig that its two clientsets were built from.
pub record Client : Type 0 where
  pub cluster_name : String
  pub namespace : String
  pub config : String
