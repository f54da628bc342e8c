-- ===== src/Tests.antt =====
-- The theorems at concrete inputs.
mod Sample
mod Selection
mod Plans
mod Load
mod Packing
mod Scaling
mod Draining
mod Direction
mod Switching
mod Satellites
mod Pools
mod Reconciling
mod Clients
