-- ===== src/Coverage.antt =====
-- packages/adopt-coverage: which identities are covered, and the cache that is compared with it.
pub mod Reasons
pub mod Evaluate
pub mod Recompute
pub mod Blockers
pub mod Verdict
pub mod Disagreements
pub mod Cache
mod Samples
