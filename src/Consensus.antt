-- ===== src/Consensus.antt =====
-- The consensus engine, internal/consensus: votes and locks, slashing, rotation and proposal checks.
pub mod Slashing
pub mod Rotation
pub mod Engine
