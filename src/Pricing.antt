-- ===== src/Pricing.antt =====
-- internal/pricing: the scoring of plans (scorer.go) and the cache of plans (cache.go).
pub mod Scorer
pub mod Cache
pub mod Lookup
pub mod Refresh
