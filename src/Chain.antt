-- ===== src/Chain.antt =====
-- The ledger core, internal/chain: the types of core.go and the monad of its methods.
pub mod Errors
pub mod Types
pub mod Monad
pub mod SafeMath
pub mod Citizen
pub mod Governance
pub mod Dex
pub mod Staking
pub mod Ledger
pub mod Exchange
pub mod OrderBook
pub mod Bridge
pub mod Immune
pub mod Execution
pub mod Blocks
pub mod Epochs
