-- ===== src/Probe.antt =====
-- packages/adopt-probe/src/adopt_probe/conflict.py: the claims that a drifted probe contradicts.
pub mod Conflicts
pub mod Found
pub mod Join
pub mod Contradictions
mod Samples
