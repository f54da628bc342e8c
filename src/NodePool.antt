-- ===== src/NodePool.antt =====
-- internal/controller/nodepool.go, in parts.
pub mod Fit
pub mod Cheapest
pub mod Groups
pub mod Partition
pub mod Satellite
pub mod Pools
pub mod Cases
pub mod Capacity
pub mod Growth
pub mod DryRun
pub mod Tracking
pub mod Cleanup
pub mod Inspection
pub mod Deletion
