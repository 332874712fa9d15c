-- ===== src/Chain/Blocks/Finality.antt =====
-- chain.go: the checks of a block, and the commit of one. The clock is an argument; a nil block is
-- not modelled.
use synthos_collective.Prelude.{
  ℕ, ◌+◌, Bool, true, not, ◌&&◌, ◌||◌, none, some, List, [], ◌∷◌, ◌++◌, ltb, leb, if◌then◌else◌,
  ◌==◌, nat_eq, string_eq, String,
}
use synthos_collective.Words.{add64}
use synthos_collective.Dict.{Dict, delete}
use synthos_collective.Chain.Errors.{ChainError, chain}
use synthos_collective.Chain.Types.{State, Tx}
use synthos_collective.Chain.Monad.{
  Result, ok, err, Action, gets, lift, raise_if, modify, ◌>>=◌, ◌>>◌,
}
use synthos_collective.Chain.Execution.{Crypto, verify_tx}
use synthos_collective.Chain.Blocks.Types.{
  Block, Chain, Hashing, rules_of, tip, transaction_chain_id,
}
use synthos_collective.Chain.Blocks.Merkle.{tx_merkle_root}
use synthos_collective.Chain.Blocks.Authority.{verify_authority}
use synthos_collective.Chain.Blocks.Transition.{block_state}
use synthos_collective.Chain.Blocks.Window.{trim_hot_window}
use synthos_collective.Chain.Blocks.Building.{root_of_txs}

-- 5 * time.Minute
abbrev pub future_drift : ℕ
future_drift = 300_000_000_000

-- The checks of the timestamp against the parent's and the clock.
unfoldable pub check_timestamp : Block → Block → ℕ → Result (Unit {0})
check_timestamp parent b now =
    let time = b.header.timestamp in
    if time == 0
    then ok tt
    else if not (parent.header.timestamp == 0) && ltb time parent.header.timestamp
    then err (chain ChainError.timestamp_before_parent)
    else if ltb (now + future_drift) time
    then err (chain ChainError.timestamp_in_future)
    else ok tt

module _ (crypto : Crypto) where
  -- The loop that checks the chain id and the signature of each transaction.
  unfoldable pub verify_txs : ℕ → List Tx → Result (Unit {0})
  unfolding verify_tx
  verify_txs id [] = ok tt
  verify_txs id (tx ∷ rest) =
      let later = verify_txs id rest in
      if not (tx.chain_id == id)
      then err (chain ChainError.wrong_chain_id)
      else elim (verify_tx crypto tx) [ err e ↦ err e | ok _ ↦ later ]

  -- `enforceStateRoot && tmp.Root() != b.Header.StateRoot`
  abbrev pub root_differs : Hashing → Chain → Block → State → Bool
  root_differs hashing c b s =
      leb c.state_root_enforce_from_height b.header.height
      && not (hashing.state_root s == b.header.state_root)

  -- The replay at the end of validateBlockLocked.
  unfoldable pub check_replay : Hashing → Chain → Block → Result (Unit {0})
  unfolding block_state
  check_replay hashing c b = elim (block_state crypto (rules_of c) b c.state) [
    | err e ↦ err e
    | ok s ↦
        if root_differs hashing c b s then err (chain ChainError.state_root_mismatch) else ok tt
  ]

  -- The checks of validateBlockLocked before the replay, in their order.
  unfoldable pub check_block : Hashing → ℕ → Bool → Block → Chain → Result (Unit {0})
  unfolding check_timestamp verify_authority tx_merkle_root verify_txs transaction_chain_id
  check_block hashing now require_quorum b c = elim (tip c) [
    | none ↦ err (if b.hash == "" then chain ChainError.bad_block else chain ChainError.no_genesis)
    | some parent ↦
        if b.hash == ""
        then err (chain ChainError.bad_block)
        else if not (b.header.parent_hash == parent.hash)
            || not (b.header.height == add64 parent.header.height 1)
        then err (chain ChainError.bad_block)
        else elim (check_timestamp parent b now) [
          | err e ↦ err e
          | ok _ ↦ elim (verify_authority crypto.verify c b require_quorum) [
            | err e ↦ err e
            | ok _ ↦
                if not (hashing.block_hash b.header b.txs == b.hash)
                then err (chain ChainError.bad_block)
                else if not (root_of_txs hashing b.txs == b.header.tx_merkle_root)
                then err (chain ChainError.bad_block)
                else verify_txs (transaction_chain_id c) b.txs
          ]
        ]
  ]

  -- validateBlockLocked: ValidateBlock with the quorum, ValidateProposal without it
  unfoldable pub validate_block : Hashing → ℕ → Bool → Block → Chain → Result (Unit {0})
  unfolding check_block check_replay
  validate_block hashing now require_quorum b c =
      elim (check_block hashing now require_quorum b c) [
        | err e ↦ err e
        | ok _ ↦ check_replay hashing c b
      ]

  -- The mempool without a block's transactions.
  unfoldable pub remove_txs : List Tx → Dict String Tx → Dict String Tx
  remove_txs [] pool = pool
  remove_txs (tx ∷ rest) pool = remove_txs rest (delete tx.id pool)

  -- The writes of FinalizeBlock.
  unfoldable pub commit_block : Block → State → Chain → Chain
  unfolding remove_txs trim_hot_window
  commit_block b next c = trim_hot_window crypto (record c {
    state = next;
    dex = next.dex_pools;
    mempool = remove_txs b.txs c.mempool;
    blocks = c.blocks ++ (record b { finalized = true } ∷ []);
  })

  -- FinalizeBlock
  unfoldable pub finalize_block : Hashing → ℕ → Block → Action Chain (Unit {0})
  unfolding validate_block block_state commit_block
  finalize_block hashing now b = do
    checked ← gets (validate_block hashing now true b)
    lift checked
    computed ← gets (λ c. block_state crypto (rules_of c) b c.state)
    next ← lift computed
    differs ← gets (λ c. root_differs hashing c b next)
    raise_if differs (chain ChainError.bad_block)
    modify (commit_block b next)
