-- ===== src/Revisions.antt =====
-- packages/adopt-store/src/adopt_store/revisions.py: the append-only revision chains.
pub mod Families
pub mod Statements
pub mod Rows
pub mod Writer
pub mod Inserts
pub mod Heads
pub mod Chains
pub mod Invariant
pub mod Affirmation
mod Samples
