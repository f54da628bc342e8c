-- ===== src/Lib.antt =====
-- The VPSie autoscaler for Cluster API: a controller that watches ScalingPolicies, measures the load
-- of the MachineDeployment that a policy names, chooses a VPSie plan for its nodes, and adds or
-- removes replicas.
--
-- The parts, with the file that models each:
-- - Policy: the spec and the status of a ScalingPolicy (api/v1alpha1/scalingpolicy_types.go).
-- - Cluster, Plan: the Kubernetes objects that the program reads, and the plans of VPSie
--   (internal/vpsie/types.go, internal/utilization/types.go).
-- - World: the calls of the workload client and of the management cluster (internal/workload/client.go)
--   and the conditions (api/v1alpha1/conditions_consts.go). A handler carries the list of the calls it
--   has made, and the answer to a call is any function of that list, so that nothing is assumed of
--   what the clusters do between two calls.
-- - Pricing: the cache of plans and the score of a plan (internal/pricing/cache.go and scorer.go).
-- - Selector: `Select` (internal/selector/selector.go); Eligible, Scan, Choice and Savings hold the
--   proofs.
-- - Scheduler: the simulation of a downscale (internal/scheduler/simulator.go): Matching is what a pod
--   asks of a node, Packing is `SimulateDownscale`; Spec says what a packing is; FirstFit, Safety and
--   Total hold the proofs.
-- - Utilization: `Calculate` and the thresholds (internal/utilization/calculator.go).
-- - NodePool: the satellites for pods that need a larger plan (internal/controller/nodepool.go): the fit
--   of pods and the cheapest plan (Fit), the groups of pods (Groups), the objects of a satellite
--   (Satellite), `reconcileNodePools` (Pools) and its cleanup (Cleanup). Cases splits a pass into its
--   parts; Inspection, Cheapest, Partition, Capacity, Growth, DryRun, Tracking and Deletion hold the
--   proofs.
-- - Horizontal: `reconcileHorizontal` (internal/controller/scalingpolicy_controller.go), cut at the
--   points where it branches: Drain continues a drain, Rollout waits for nodes, ScaleUp and ScaleDown
--   resize, Reconcile puts them together. Cases splits a pass into these parts; Bounds, Invariant,
--   DryRun, Safety, DrainEnds and Recovery hold the proofs.
-- - Direction: `determineDirection`, which asks for the load and simulates a downscale; Verdict holds
--   its proofs. PlanSwitch: `switchPlan`; Rollback holds its proofs (both
--   internal/controller/scalingpolicy_controller.go).
-- - Controller: `Reconcile`, which puts these together (internal/controller/scalingpolicy_controller.go):
--   Credentials finds the VPSie key, Prices the cache of prices, the current plan and the plan to switch
--   to, Reconcile goes through a reconciliation and Conclude ends it; Watch maps a MachineDeployment to
--   its policies. Choice, Reads, DryRun, Idle, Ending, Panics, Requeue, Bound and Stale hold the proofs. The
--   state is the map of pricing caches; the status of a policy stands in two records, one that steers (Policy) and one that
--   only reports.
-- - Rebalancer: `rebalancePolicy` (internal/controller/rebalancer.go); Guards has the cooldown,
--   Cycle the pass over all policies; Safety, Cases, Justified, Idle and Bound hold the proofs.
-- - Program: what cmd/main.go runs, that is reconciliations and rebalancing cycles over the same pricing
--   caches, one after the other in any order. Its state also keeps the statuses that a policy may be read
--   with; what the API server then answers is a hypothesis. DryRun and Bound hold the proofs over whole
--   runs.
-- - Workload: the client of a workload cluster (internal/workload/client.go): Reads, Drain and Factory;
--   Evictions and Clients hold the proofs. Its operations are the calls of World; the handlers take their
--   answers as they come, so that nothing of the client is assumed of them.
-- - Vpsie: the client of the VPSie API (internal/vpsie/client.go), which fills the interface that the
--   pricing cache takes.
-- - Base, Float: lists, Booleans, integers with the wrap-around of Go, errors as values; floats.
-- - Tests: the theorems at concrete inputs.
--
-- Numbers: Go's `int`, `int64` and `int32` are integers, with the wrap-around written out at each sum,
-- difference and product (add64, sub32 and so on). `float64` is a type F with the operations that
-- the code uses; only the strict order of IEEE 754 is ever assumed of it (`IsOrdered`). Every loop is
-- structural recursion over a list, so there is no fuel.
--
-- Parameters, since their code is not in the repository: `sort.Slice` (a permutation of its argument,
-- and no more), the order in which Go ranges over a map, the parser of quantities, the lower case of a
-- rune, the clock, the answers of the clusters and of the VPSie API, HTTP, JSON and the encoding of forms,
-- and the building of clients from a kubeconfig.
--
-- Left out: the texts of conditions and events (their types, reasons and order are kept), Prometheus
-- metrics, logs, locks, what happens when a reconciliation and a rebalancing cycle overlap in time, the
-- registration of the controller and the flags (cmd/main.go), the test double
-- internal/workload/fake.go, and generated code.
pub mod Base
pub mod Cluster
pub mod Direction
pub mod Controller
pub mod Rebalancer
pub mod Program
pub mod Float
pub mod Plan
pub mod PlanSwitch
pub mod Policy
pub mod Pricing
pub mod Scheduler
pub mod Selector
pub mod Utilization
pub mod Vpsie
pub mod Workload
pub mod World
mod Tests
pub mod NodePool
pub mod Horizontal
