-- ===== src/Chain/Blocks.antt =====
-- chain.go, block.go and merkle.go: the blocks, what they do to the state, who may make them, and
-- which of them stay in memory.
pub mod Types
pub mod Merkle
pub mod Fees
pub mod Authority
pub mod Transition
pub mod Window
pub mod Mempool
pub mod Building
pub mod Finality
pub mod Reorg
pub mod Checkpoint
pub mod History
pub mod Agreement
pub mod Rewards
pub mod Clock
pub mod Lookup
pub mod Branch
pub mod Switch
pub mod Shift
mod Tests
