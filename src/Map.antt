-- ===== src/Map.antt =====
-- packages/adopt-map/src/adopt_map/moves.py: the detection of moves.
pub mod Moves
pub mod Keys
pub mod Pairing
pub mod Evidence
pub mod Accounting
mod Samples
