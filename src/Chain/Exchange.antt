-- ===== src/Chain/Exchange.antt =====
-- core.go: applyDEXTx, the transactions that issue an asset and use the replicated pools.
pub mod Fields
pub mod Liquidity
pub mod Swaps
pub mod Dispatch
pub mod Supply
pub mod Settlement
pub mod Conservation
mod Tests
