-- ===== src/Tests/Sample.antt =====
-- Sample values: a float of three decimals, plans, pods, a node, a policy, and clusters that answer.
use Prim.Native.String.{String}
use mathlib.Core.List.{Perm}
use mathlib.Core.List.Perm
use vpsie_k8s_capi_autoscale.Base.{
  ◌*◌, ◌/◌, ℤ, pos, negsuc, ◌+ℤ◌, ◌-ℤ◌, ◌*ℤ◌, quot, ltb_ℤ, leb_ℤ, ltb_ℤ→lt, lt→ltb_ℤ, ltb_ℤ-irrefl,
  ◌≡◌, ◌≢◌, ap, Bool, true, false, Option, none, some, List, [], ◌∷◌, Result, ok, err, arith,
}
use vpsie_k8s_capi_autoscale.Float.{Float64, IsOrdered}
use vpsie_k8s_capi_autoscale.Cluster.{Pod, Node}
use vpsie_k8s_capi_autoscale.Plan.{Plan, NodeUtilization}
use vpsie_k8s_capi_autoscale.Policy.{ResourceConstraints, ScalingPolicySpec}
use vpsie_k8s_capi_autoscale.Utilization.Thresholds.{UtilizationResult}
use vpsie_k8s_capi_autoscale.World.{absent, present, Env, MachineDeployment}
use vpsie_k8s_capi_autoscale.Horizontal.Pass.{Pass}

-- Thousandths stand for the floats. A quotient by nought is nought.
abbrev quotient : ℤ → ℤ → ℤ
quotient a (pos d) = quot a d
quotient a (negsuc d) = pos 0

instance abbrev pub thousandths : Float64 ℤ
thousandths = record {
  lt = ltb_ℤ;
  le = leb_ℤ;
  add = λ a b. a +ℤ b;
  sub = λ a b. a -ℤ b;
  mul = λ a b. quot (a *ℤ b) 1000;
  div = λ a b. quotient (a *ℤ pos 1000) b;
  of_int = λ a. a *ℤ pos 1000;
  to_int = λ a. quot a 1000;
  ratio = λ m n. pos (m * 1000 / n);
}

pub thousandths-IsOrdered : IsOrdered ℤ
thousandths-IsOrdered = record {
  lt_irrefl = λ x. ltb_ℤ-irrefl x;
  lt_trans = λ x y z h k. lt→ltb_ℤ x z (omega (arith, ltb_ℤ→lt x y h, ltb_ℤ→lt y z k));
}

abbrev pub plan : String → ℤ → ℤ → ℤ → Plan ℤ
plan identifier cpu ram price = record {
  identifier = identifier;
  nickname = identifier;
  cpu = cpu;
  ram = ram;
  ssd = pos 80;
  traffic = pos 1000;
  price_monthly = price;
  category_id = "c1";
  category_name = "Shared";
}

abbrev pub small : Plan ℤ
small = plan "small" (pos 1) (pos 2048) (pos 5000)

abbrev pub medium : Plan ℤ
medium = plan "medium" (pos 4) (pos 8192) (pos 20000)

abbrev pub large : Plan ℤ
large = plan "large" (pos 8) (pos 16384) (pos 40000)

abbrev pub constraints : ResourceConstraints
constraints = record {
  min_cpu = pos 1;
  max_cpu = pos 16;
  min_ram = pos 1024;
  max_ram = pos 32768;
  min_ssd = pos 20;
  excluded_plans = [];
}

abbrev pub pod : String → String → ℤ → Pod
pod name node_name cpu = record {
  name = name;
  namespace = "default";
  node_name = node_name;
  phase = "Running";
  owner_kinds = "ReplicaSet" ∷ [];
  annotations = [];
  containers = record { cpu_millis = cpu; memory_bytes = pos 1000000 } ∷ [];
  init_containers = [];
  tolerations = [];
  node_selector = [];
  affinity = none;
  conditions = [];
}

abbrev pub node : String → Node
node name = record {
  name = name;
  labels = [];
  taints = [];
  unschedulable = false;
  allocatable_cpu = pos 4000;
  allocatable_memory = pos 8000000000;
}

abbrev pub load : String → List Pod → NodeUtilization
load name pods = record {
  node_name = name;
  allocatable_cpu = pos 4000;
  allocatable_ram = pos 8000000000;
  requested_cpu = pos 100;
  requested_ram = pos 1000000;
  labels = [];
  taints = [];
  pods = pods;
}

-- Two nodes, each with one pod.
abbrev pub loads : List NodeUtilization
loads = load "n1" (pod "p1" "n1" (pos 100) ∷ []) ∷ load "n2" (pod "p2" "n2" (pos 200) ∷ []) ∷ []

abbrev pub idle : UtilizationResult ℤ
idle = record {
  scheduled_cpu_percent = pos 3750;
  scheduled_memory_percent = pos 25;
  actual_cpu_percent = pos 0;
  actual_memory_percent = pos 0;
  metrics_available = false;
  nodes = loads;
  source = "requests";
}

abbrev pub spec : Bool → ScalingPolicySpec
spec dry_run = record {
  target_ref = record { name = "md"; namespace = "default" };
  credentials_ref = none;
  dc_identifier = "dc";
  os_identifier = "os";
  allowed_categories = [];
  constraints = constraints;
  aggressiveness = "moderate";
  rebalancing = record {
    enabled = true;
    cooldown_period = none;
    max_concurrent_replacements = pos 1;
    min_savings_percent = pos 10;
  };
  target_utilization = record { scale_up_threshold = pos 80; scale_down_threshold = pos 30 };
  horizontal = record {
    enabled = true;
    min_replicas = pos 1;
    max_replicas = pos 5;
    scale_down_stabilization = none;
  };
  node_pool_policy = none;
  dry_run = dry_run;
  plan_refresh_interval = none;
}

-- The MachineDeployment with two replicas, both ready.
abbrev pub deployment : MachineDeployment
deployment = record {
  name = "md";
  namespace = "default";
  labels = [];
  cluster_name = "c";
  match_labels = [];
  bootstrap = "kubeadm";
  replicas = some (pos 2);
  infrastructure_name = "template";
  deprecated_ready_replicas = some (pos 2);
  ready_replicas = none;
  up_to_date_replicas = some (pos 2);
  status_replicas = some (pos 2);
}

abbrev pub pass : String → Option ℤ → Pass
pass draining_node started = record {
  status = record {
    last_rebalance_time = none;
    pending_pods = pos 0;
    current_replicas = pos 2;
    desired_replicas = pos 2;
    last_scale_time = none;
    draining_node = draining_node;
    draining_started_at = started;
    previous_infra_template = "";
    node_pools = [];
  };
  deployment = deployment;
  calls = [];
}

-- A cluster with the given clock, pending pods and result of a drain, in which all else succeeds.
abbrev pub env : ℤ → List Pod → Result ℤ → Env
env time pending drained = record {
  clock = λ _. time;
  has_workload_clients = true;
  connect = λ _. ok tt;
  nodes = λ _. ok (node "n1" ∷ node "n2" ∷ []);
  pods = λ _. ok (pod "p1" "n1" (pos 100) ∷ pod "p2" "n2" (pos 200) ∷ []);
  node_metrics = λ _. err "no metrics";
  pending_pods = λ _. ok pending;
  cordoned = λ _. ok tt;
  uncordoned = λ _. ok tt;
  drained = λ _. drained;
  pod_count = λ _. ok (pos 0);
  patched = λ _. ok tt;
  template_found = λ _. absent;
  created = λ _. ok tt;
  deployment_found = λ _. present;
  deployment_read = λ _. deployment;
  deleted = λ _. ok tt;
  updated = λ _. ok tt;
  parse_quantity = λ _. none;
  sort_slice = λ _ pods. pods;
}

pub sort_slice-Perm : (less : Pod → Pod → Bool) (pods : List Pod) → Perm pods pods
sort_slice-Perm less pods = Perm.refl pods

abbrev is_empty : String → Bool
is_empty String.[] = true
is_empty (String.◌∷◌ c s) = false

pub n1-is_named : ◌≢◌ {A = String} "n1" ""
n1-is_named e = let clash : false ≡ true = ap is_empty e in ground arith
