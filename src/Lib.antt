-- ===== src/Lib.antt =====
-- The ledger and consensus core of the repository, modelled and proved.
--
-- Parts and files:
--   Words, Text, Dict, Prelude: Go's uint64 and int64, strings and maps, and shared lemmas.
--   Chain.Types, Chain.Errors, Chain.SafeMath: the State of internal/chain/core.go, its records and
--     safeAdd and safeSub. A method is an action on the State: it returns a result and the State
--     that it leaves, on errors too (Chain.Monad).
--   Chain.Citizen: internal/chain/citizen.go (StakeCitizen, UnstakeCitizen, ClaimCitizenRewards).
--   Chain.Governance: internal/chain/governance.go (create, vote and execute a proposal).
--   Chain.Dex: internal/chain/dex.go (pools, quotes, liquidity, the integer square root).
--   Chain.Staking: internal/chain/validator_staking.go. Params: the parameters; Staking: bond,
--     unbond and withdraw; Evidence: double-sign reports and slashing; ActiveSet: the set by stake.
--   Chain.Ledger: the generic transfer and applyCitizenGovernanceTx of internal/chain/core.go.
--   Chain.Exchange: applyDEXTx of internal/chain/core.go. Fields: the metadata; Liquidity: deposits
--     and withdrawals; Swaps; Dispatch: the transaction with its fee; Supply, Settlement and
--     Conservation: what it keeps of the supply of SYN and of every asset.
--   Chain.Immune: applyImmuneMetadata, Slash and the status reads of internal/chain/core.go.
--   Chain.Execution: Tx.Verify and ApplyTx of internal/chain/core.go, and ApplyTransaction of
--     internal/chain/abci_support.go. Nonces and Replay: what no sequence of transactions undoes.
--   Chain.Blocks: internal/chain/chain.go, block.go and merkle.go. Types: blocks, the Chain and its
--     setters; Merkle; Fees; Authority: who may make a block; Transition: what a block does to the
--     state; Window: the blocks in memory; Mempool; Building: BuildBlock; Finality: the checks and
--     FinalizeBlock; Reorg: TryReorg. Checkpoint, History, Agreement, Branch, Switch, Shift, Rewards,
--     Clock and Lookup: what is proved of them.
--   Chain.Epochs: the rest of internal/chain/abci_support.go. Income: the fees of a block and the votes
--     of an epoch; Payouts: DistributeFeeEpochPayout.
--   Chain.Bridge: applyBridgeMetadata and the release check of internal/chain/core.go.
--   Chain.OrderBook: internal/chain/orderbook.go.
--   Consensus.Engine: internal/consensus/engine.go and messages.go. Engine: the state and the
--     proposals; Tally: processVoteInternal; Safety: what every run of calls keeps; Membership: the
--     validator sets.
--   Consensus.Slashing: internal/consensus/slashing.go.
--   Consensus.Rotation: internal/consensus/rotation.go and proposal_processor.go.
--
-- The chain's State and the engine's state are separate objects: the engine decides which block is
-- final, and the chain's FinalizeBlock runs the block's transactions on the State. The transactions
-- of a block go through ApplyTransaction, which hands each kind to the part that models it.
--
-- Conventions: a uint64 is a natural number below 2 ^ 64 and wraps where the source does; an int or
-- an int64 is its bit pattern; a map is an association list with one entry for each key, whose
-- missing entry reads as the zero value; times are numbers. Loops are structural, except the Newton
-- loop of sqrtUint64 and the loop over the levels of a Merkle tree, which run on fuel that is proved
-- to be enough (for the tree, the number of leaves), and the digits of a number, where the number is
-- the fuel.
--
-- Not modelled: genesis (genesis.go, NewChain), RecordThreat, nil blocks, and calls that run while
-- TryReorg has released its lock. As no logic of their own: locks (each method holds its lock
-- throughout; processVoteInternal releases it around the slashing report), JSON, hashing, the
-- network, storage, RPC and the commands. Chain.Execution.Crypto has sha256, ed25519.Verify,
-- AddressFromPublicKey and the JSON of a transaction as parameters, and Chain.Blocks.Types.Hashing
-- the hashes of blocks, states and tree nodes; the clock is an argument. The letters that ToLower
-- changes are the ASCII ones.
pub mod Prelude
pub mod Words
pub mod Text
pub mod Dict
pub mod Chain
pub mod Consensus
