-- ===== src/Freshness.antt =====
-- packages/adopt-freshness: which state, level and rule an item's freshness resolves to.
pub mod Sensors
pub mod Resolve
pub mod Bindings
pub mod Rules
pub mod Silence
pub mod Precedence
pub mod Propagation
mod Samples
