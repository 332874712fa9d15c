-- ===== src/Chain/Execution.antt =====
-- core.go: Tx.Verify and ApplyTx; abci_support.go: ApplyTransaction. sha256 in hex, ed25519.Verify,
-- AddressFromPublicKey and the JSON of a transaction are the fields of `Crypto`. signingBytes also
-- sorts the metadata in place, which is left out: a lookup takes the first value under a key, so it
-- matters only where a key occurs more than once in a list that is long enough for sort.Slice not to
-- be stable.
mod Actions
mod Trades
mod Stakes
pub mod Nonces
pub mod Replay
pub mod Samples
mod Tests
use synthos_collective.Prelude.{
  ℕ, ◌+◌, ◌/◌, ◌%◌, Bool, not, ◌&&◌, ◌||◌, Option, List, ltb, leb, if◌then◌else◌, ◌==◌, nat_eq,
  string_eq, String,
}
use synthos_collective.Text.{join, to_lower, trim_prefix, is_hex_bytes}
use synthos_collective.Chain.Errors.{CoreError, core}
use synthos_collective.Chain.Types.{Address, State, Tx, metadata_value}
use synthos_collective.Chain.Monad.{Result, ok, err, Action, raise, gets, lift, modify, ◌>>=◌, ◌>>◌}
use synthos_collective.Chain.Ledger.{
  validate_basic, transfer, settle_transfer, apply_citizen_governance_tx,
}
use synthos_collective.Chain.Exchange.Dispatch.{apply_dex_tx}
use synthos_collective.Chain.Immune.{apply_immune_metadata}
use synthos_collective.Chain.Bridge.{BridgeValidatorSignature, apply_bridge_metadata}
use synthos_collective.Chain.Staking.{TxContext}
use synthos_collective.Chain.Staking.Params.{enabled_at}
use synthos_collective.Chain.Staking.Evidence.{apply_validator_tx_ctx}

-- What the ledger takes from Go's crypto and encoding packages. Keys and signatures are in hex.
pub record Crypto : Type 0 where
  pub sha256 : String → String
  pub verify : String → String → String → Bool
  pub address_from_public_key : String → Address
  pub signing_bytes : Tx → String
  pub decode_signatures : String → Option (List BridgeValidatorSignature)

abbrev pub is_citizen_governance_type : String → Bool
is_citizen_governance_type t =
    t == "citizen_stake"
    || (t == "citizen_unstake"
        || (t == "citizen_claim_rewards"
            || (t == "governance_propose"
                || (t == "governance_vote" || t == "governance_execute"))))

abbrev pub is_dex_type : String → Bool
is_dex_type t =
    t == "asset_issue"
    || (t == "dex_add_liquidity" || (t == "dex_remove_liquidity" || t == "dex_swap"))

abbrev pub is_validator_type : String → Bool
is_validator_type t =
    t == "validator_bond"
    || (t == "validator_unbond" || (t == "validator_withdraw" || t == "validator_evidence"))

-- RequiredFee
unfoldable pub required_fee : Tx → ℕ
required_fee tx =
    let tx_type = metadata_value tx.metadata "type" in
    let rounded = tx.amount / 1000 + (if tx.amount % 1000 == 0 then 0 else 1) in
    let at_least = if ltb rounded 10 then 10 else rounded in
    if tx.asset_id == "" && (tx_type == "" || tx_type == "transfer")
    then (if ltb 1000 at_least then 1000 else at_least)
    else 10

-- FeeModelV2ActivationHeight
abbrev pub fee_model_v2_height : ℕ
fee_model_v2_height = 102_550

-- `int64(height) >= FeeModelV2ActivationHeight`
abbrev pub is_fee_model_v2 : ℕ → Bool
is_fee_model_v2 height = leb fee_model_v2_height height && ltb height 9_223_372_036_854_775_808

abbrev pub at_time : ℕ → Tx → Tx
at_time block_time tx = record tx {
  timestamp = if block_time == 0 then tx.timestamp else block_time;
}

module _ (crypto : Crypto) where
  -- Tx.Verify
  unfoldable pub verify_tx : Tx → Result (Unit {0})
  unfolding validate_basic to_lower trim_prefix is_hex_bytes
  verify_tx tx =
      let payload = crypto.signing_bytes tx in
      let sig = trim_prefix tx.signature "0x" in
      let key = trim_prefix tx.public_key "0x" in
      elim (validate_basic tx) [
        | err e ↦ err e
        | ok _ ↦
            if not (is_hex_bytes 64 sig)
            then err (core CoreError.bad_signature)
            else if not (is_hex_bytes 32 key)
            then err (core CoreError.bad_public_key)
            else if not (crypto.address_from_public_key (to_lower key) == tx.from)
            then err (core CoreError.from_mismatch)
            else if not (crypto.verify (to_lower key) payload (to_lower sig))
            then err (core CoreError.bad_signature)
            else if not (tx.id == join "0x" (crypto.sha256 payload))
            then err (core CoreError.id_mismatch)
            else ok tt
      ]

  -- The end of ApplyTx: a transfer with what its metadata asks for.
  unfoldable pub apply_transfer : Tx → Action State (Unit {0})
  unfolding transfer settle_transfer apply_immune_metadata apply_bridge_metadata
  apply_transfer tx = do
    moved ← gets (transfer tx)
    accounts ← lift moved
    apply_immune_metadata tx
    apply_bridge_metadata crypto.sha256 crypto.verify crypto.decode_signatures tx
    modify (settle_transfer tx accounts)

  -- The dispatch of ApplyTx, on a transaction that is verified.
  unfoldable pub dispatch : Tx → Action State (Unit {0})
  unfolding apply_transfer apply_citizen_governance_tx apply_dex_tx
  dispatch tx =
      let tx_type = metadata_value tx.metadata "type" in
      if is_citizen_governance_type tx_type
      then apply_citizen_governance_tx tx tx_type
      else if is_dex_type tx_type
      then apply_dex_tx tx tx_type
      else apply_transfer tx

  -- ApplyTx
  unfoldable pub apply_tx : Tx → Action State (Unit {0})
  unfolding verify_tx dispatch
  apply_tx tx = do lift (verify_tx tx); dispatch tx

  -- The validator branch of ApplyTransaction.
  unfoldable pub apply_validator_tx : TxContext → Tx → Action State (Unit {0})
  unfolding verify_tx apply_validator_tx_ctx
  apply_validator_tx ctx tx = do
    lift (verify_tx tx)
    apply_validator_tx_ctx crypto.verify (metadata_value tx.metadata "type") ctx tx

  -- ApplyTransaction. A block time other than 0 takes the place of the timestamp.
  unfoldable pub apply_transaction : TxContext → ℕ → Tx → Action State (Unit {0})
  unfolding required_fee apply_validator_tx apply_tx enabled_at
  apply_transaction ctx block_time tx =
      let tx_type = metadata_value tx.metadata "type" in
      if is_fee_model_v2 ctx.height && ltb tx.fee (required_fee tx)
      then raise (core CoreError.fee_too_low)
      else if is_validator_type tx_type && enabled_at ctx.params ctx.height
      then apply_validator_tx ctx (at_time block_time tx)
      else apply_tx (at_time block_time tx)
