-- ===== src/Ports.antt =====
-- packages/adopt-store/src/adopt_store/sqlite/records.py: the read ports of freshness and coverage over
-- the tables of a store.
pub mod Queries
pub mod Freshness
pub mod Coverage
pub mod Keyed
pub mod Retirement
pub mod Rebuild
