-- ===== src/Scheduler.antt =====
-- internal/scheduler/simulator.go, in parts.
pub mod Matching
pub mod Packing
pub mod Safety
pub mod Total
pub mod Spec
pub mod FirstFit
