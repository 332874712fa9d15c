-- ===== src/Chain/Ledger.antt =====
-- core.go: the generic transfer of ApplyTx and the dispatch of the citizen and governance types.
-- Tx.Verify, which comes first, is Chain.Execution.verify_tx; what it checks of the fields is
-- `validate_basic`. Between its checks and its two account writes ApplyTx also writes the immune-node
-- records, which are Chain.Immune, and the bridge records, which are Chain.Bridge.
pub mod Transfers
pub mod Fees
mod Tests
use synthos_collective.Prelude.{
  ℕ, ◌+◌, ◌-◌, Bool, true, false, not, ◌&&◌, ◌||◌, Option, none, some, get_or, List, [], ◌∷◌, ltb,
  if◌then◌else◌, ◌==◌, nat_eq, string_eq, String,
}
use synthos_collective.Words.{add64, sub64}
use synthos_collective.Text.{trim_prefix}
use synthos_collective.Dict.{Dict, lookup, insert}
use synthos_collective.Chain.Errors.{CoreError, Error, core}
use synthos_collective.Chain.Types.{
  Address, Account, KeyValuePair, State, Tx, account_of, set_account, metadata_value,
}
use synthos_collective.Chain.Monad.{
  Result, ok, err, Action, pure, raise, gets, or_raise, lift, raise_if, modify, ◌>>=◌, ◌>>◌,
}
use synthos_collective.Chain.SafeMath.{safe_add}
use synthos_collective.Chain.Citizen.{stake_citizen, unstake_citizen, claim_citizen_rewards}
use synthos_collective.Chain.Governance.{
  create_governance_proposal, vote_governance, execute_governance_proposal, total_stake,
}
use synthos_collective.Chain.Staking.Evidence.{parse_metadata_uint}

-- INNER_CIRCLE_PRICE
abbrev pub inner_circle_price : ℕ
inner_circle_price = 200_000_000

unfoldable pub validate_basic : Tx → Result (Unit {0})
validate_basic tx =
    let missing = core CoreError.missing_field in
    if tx.chain_id == 0
    then err missing
    else if tx.from == "" || tx.to == ""
    then err missing
    else if tx.amount == 0
    then err missing
    else if tx.fee == 0
    then err missing
    else if trim_prefix tx.public_key "0x" == ""
    then err missing
    else ok tt

abbrev pub is_native : String → Bool
is_native asset_id = asset_id == "" || asset_id == "syn"

-- acc.Assets[id]
abbrev pub asset_of : String → Account → ℕ
asset_of id acc = get_or (lookup id acc.assets) 0

-- The loop over the metadata.
unfoldable pub underpays : ℕ → List KeyValuePair → Bool
underpays amount [] = false
underpays amount (kv ∷ rest) =
    let later = underpays amount rest in
    if kv.key == "type" && kv.value == "inner_circle_purchase" && ltb amount inner_circle_price
    then true
    else later

-- The sender after the debit, its nonce included.
unfoldable pub debit : Tx → Account → Result Account
unfolding safe_add
debit tx from =
    let nonce = add64 from.nonce 1 in
    if is_native tx.asset_id
    then elim (safe_add tx.amount tx.fee) [
      | err _ ↦ err (core CoreError.amount_overflow)
      | ok total ↦
          if ltb from.balance total
          then err (core CoreError.insufficient_funds)
          else ok (record from { balance = from.balance - total; nonce = nonce })
    ]
    else if ltb (asset_of tx.asset_id from) tx.amount
    then err (core CoreError.insufficient_asset)
    else if ltb from.balance tx.fee
    then err (core CoreError.insufficient_funds)
    else ok (record from {
      balance = from.balance - tx.fee;
      assets = insert tx.asset_id (asset_of tx.asset_id from - tx.amount) from.assets;
      nonce = nonce;
    })

unfoldable pub credit : Tx → Account → Result Account
unfolding safe_add
credit tx to =
    if is_native tx.asset_id
    then elim (safe_add to.balance tx.amount) [
      | err _ ↦ err (core CoreError.recipient_overflow)
      | ok balance ↦ ok (record to { balance = balance })
    ]
    else elim (safe_add (asset_of tx.asset_id to) tx.amount) [
      | err _ ↦ err (core CoreError.recipient_asset_overflow)
      | ok held ↦ ok (record to { assets = insert tx.asset_id held to.assets })
    ]

-- Both accounts as the transfer leaves them. Each was read before either is written.
unfoldable pub transfer : Tx → State → Result (Account × Account)
unfolding debit credit underpays
transfer tx s =
    let from = account_of tx.from s in
    let to = account_of tx.to s in
    if not (tx.nonce == from.nonce)
    then err (core CoreError.bad_nonce)
    else if underpays tx.amount tx.metadata
    then err (core CoreError.inner_circle_too_small)
    else elim (debit tx from) [
      | err e ↦ err e
      | ok sender ↦ elim (credit tx to) [ err e ↦ err e | ok recipient ↦ ok (sender, recipient) ]
    ]

-- The recipient is written first, and then the sender.
unfoldable pub settle_transfer : Tx → Account × Account → State → State
settle_transfer tx (sender, recipient) s =
    set_account tx.from sender (set_account tx.to recipient s)

-- `settled.Balance -= tx.Fee` wraps where the action left less than the fee.
unfoldable pub charge_fee : Tx → State → State
charge_fee tx s =
    let settled = account_of tx.from s in
    set_account tx.from
      (record settled { balance = sub64 settled.balance tx.fee; nonce = add64 settled.nonce 1 }) s

unfoldable pub propose_from : Tx → Action State (Unit {0})
unfolding create_governance_proposal
propose_from tx =
    let read = metadata_value tx.metadata in
    elim (parse_metadata_uint tx.metadata "amount") [
      | none ↦ raise (core CoreError.bad_number)
      | some amount ↦
          create_governance_proposal tx.from (read "id") (read "description") amount
            (read "recipient")
    ]

unfoldable pub execute_from : Tx → Action State (Unit {0})
unfolding execute_governance_proposal
execute_from tx = do
  total ← gets total_stake
  execute_governance_proposal (metadata_value tx.metadata "proposal_id") total

unfoldable pub claim_from : Tx → Action State (Unit {0})
unfolding claim_citizen_rewards
claim_from tx = do _ ← claim_citizen_rewards tx.from tx.timestamp; pure tt

-- The switch on the type.
unfoldable pub citizen_action : Tx → String → Action State (Unit {0})
unfolding stake_citizen unstake_citizen claim_from propose_from vote_governance execute_from
citizen_action tx tx_type =
    if tx_type == "citizen_stake"
    then stake_citizen tx.from tx.amount tx.timestamp
    else if tx_type == "citizen_unstake"
    then unstake_citizen tx.from tx.amount
    else if tx_type == "citizen_claim_rewards"
    then claim_from tx
    else if tx_type == "governance_propose"
    then propose_from tx
    else if tx_type == "governance_vote"
    then vote_governance tx.from (metadata_value tx.metadata "proposal_id")
        (metadata_value tx.metadata "in_favor" == "true")
    else if tx_type == "governance_execute"
    then execute_from tx
    else raise (core CoreError.unhandled_tx_type)

unfoldable pub required_upfront : Tx → String → Result ℕ
unfolding safe_add
required_upfront tx tx_type =
    if tx_type == "citizen_stake"
    then elim (safe_add tx.amount tx.fee) [
      | err _ ↦ err (core CoreError.amount_overflow)
      | ok total ↦ ok total
    ]
    else ok tx.fee

unfoldable pub apply_citizen_governance_tx : Tx → String → Action State (Unit {0})
unfolding required_upfront citizen_action charge_fee
apply_citizen_governance_tx tx tx_type = do
  acc ← gets (account_of tx.from)
  raise_if (not (tx.nonce == acc.nonce)) (core CoreError.bad_nonce)
  upfront ← lift (required_upfront tx tx_type)
  raise_if (ltb acc.balance upfront) (core CoreError.insufficient_funds)
  citizen_action tx tx_type
  modify (charge_fee tx)
