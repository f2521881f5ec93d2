-- ===== src/Model.antt =====
-- packages/adopt-model/src/adopt_model: the vocabularies and the rows that the components share.
pub mod Enums
pub mod Tables
pub mod Scopes
