-- ===== src/Store.antt =====
-- packages/adopt-store/src/adopt_store/sqlite: the tables of a store, its unit of work, and the
-- statements that the components run.
pub mod Tables
