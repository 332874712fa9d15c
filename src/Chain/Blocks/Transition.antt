-- ===== src/Chain/Blocks/Transition.antt =====
-- chain.go: what a block does to the state: its transactions, its fees, and the steps at its end.
use synthos_collective.Prelude.{
  ℕ, ◌-◌, ◌&&◌, none, some, List, [], ◌∷◌, length, ltb, if◌then◌else◌, ◌==◌, nat_eq, string_eq,
  String,
}
use synthos_collective.Text.{to_lower, is_hex_bytes}
use synthos_collective.Dict.{lookup}
use synthos_collective.Chain.Types.{Address, ActiveValidator, State, Tx, account_of, set_account}
use synthos_collective.Chain.Monad.{Result, ok, err, Action}
use synthos_collective.Chain.Staking.Params.{consensus_active_at, is_snapshot_height}
use synthos_collective.Chain.Staking.ActiveSet.{active_validator_set}
use synthos_collective.Chain.Execution.{Crypto, apply_transaction}
use synthos_collective.Chain.Blocks.Types.{Block, Rules, StateCorrection, context}
use synthos_collective.Chain.Blocks.Fees.{credit_proposer_fees}

-- The loop of proposerAddressLocked.
unfoldable pub operator_of : String → List ActiveValidator → Address
operator_of key [] = ""
operator_of key (v ∷ rest) =
    let later = operator_of key rest in if v.consensus_pub_key == key then v.operator else later

-- A correction's debit stops at 0.
unfoldable pub correct : StateCorrection → State → State
correct corr s =
    let acc = account_of corr.address s in
    set_account corr.address
      (record acc { balance = if ltb corr.debit acc.balance then acc.balance - corr.debit else 0 })
      s

-- applyIrregularStateCorrectionsLocked
unfoldable pub apply_corrections : List StateCorrection → ℕ → State → State
unfolding correct
apply_corrections [] height s = s
apply_corrections (corr ∷ rest) height s =
    apply_corrections rest height (if corr.at_height == height then correct corr s else s)

-- finishBlockStateLocked
unfoldable pub finish_block_state : Rules → ℕ → State → State
unfolding apply_corrections is_snapshot_height active_validator_set
finish_block_state r height s =
    let corrected = apply_corrections r.corrections height s in
    if is_snapshot_height r.staking height
    then record corrected { validator_set_snapshot = active_validator_set r.staking corrected }
    else corrected

-- The loop over a block's transactions, each applied by `apply`: the first that fails ends it.
unfoldable pub replay_txs : (Tx → Action State (Unit {0})) → List Tx → State → Result State
replay_txs apply [] s = ok s
replay_txs apply (tx ∷ rest) s =
    let (applied, s') = apply tx s in
    elim applied [ err e ↦ err e | ok _ ↦ replay_txs apply rest s' ]

module _ (crypto : Crypto) where
  -- resolveProposerAddressLocked
  unfoldable pub resolve_proposer_address : Rules → String → Address
  unfolding is_hex_bytes to_lower
  resolve_proposer_address r proposer_id = elim (lookup proposer_id r.keys) [
    | none ↦ ""
    | some key ↦ if is_hex_bytes 32 key then crypto.address_from_public_key (to_lower key) else ""
  ]

  -- proposerAddressLocked, on the state before the block
  unfoldable pub proposer_address : Rules → State → ℕ → String → Address
  unfolding resolve_proposer_address consensus_active_at operator_of to_lower
  proposer_address r pre height proposer_id =
      if consensus_active_at r.staking height && ltb 0 (length pre.validator_set_snapshot)
      then operator_of (to_lower proposer_id) pre.validator_set_snapshot
      else resolve_proposer_address r proposer_id

  -- applyTxLocked
  unfoldable pub apply_tx_at : Rules → ℕ → Tx → Action State (Unit {0})
  unfolding apply_transaction
  apply_tx_at r height tx = apply_transaction crypto (context r height) 0 tx

  -- The state after a block, as validateBlockLocked, FinalizeBlock and advanceCheckpointStateLocked
  -- compute it.
  unfoldable pub block_state : Rules → Block → State → Result State
  unfolding apply_tx_at replay_txs credit_proposer_fees proposer_address finish_block_state
  block_state r b pre =
      let height = b.header.height in
      elim (replay_txs (apply_tx_at r height) b.txs pre) [
        | err e ↦ err e
        | ok s ↦
            elim (credit_proposer_fees b.txs (proposer_address r pre height b.header.proposer_id)
              s) [ err e ↦ err e | ok s' ↦ ok (finish_block_state r height s') ]
      ]
