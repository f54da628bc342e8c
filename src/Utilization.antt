-- ===== src/Utilization.antt =====
-- internal/utilization, in parts.
pub mod Thresholds
pub mod Calculator
pub mod Grouping
