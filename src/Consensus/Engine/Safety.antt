-- ===== src/Consensus/Engine/Safety.antt =====
-- engine.go: no two blocks reach the threshold at one height, round and stage.
pub mod Quorum
pub mod Runs
