-- ===== src/Horizontal.antt =====
-- The horizontal scaling of internal/controller/scalingpolicy_controller.go, in parts.
pub mod Pass
pub mod Drain
pub mod Rollout
pub mod ScaleUp
pub mod ScaleDown
pub mod Reconcile
pub mod Cases
pub mod Bounds
pub mod Invariant
pub mod DryRun
pub mod Safety
pub mod DrainEnds
pub mod Recovery
