-- ===== src/Chain/Staking.antt =====
-- validator_staking.go: the parameters, the registry and its transactions. ed25519.Verify is not
-- part of the program: it is the parameter `verify` of what uses it, over the hex of a public key,
-- the message and the hex of a signature.
pub mod Params
pub mod Keys
pub mod Funds
pub mod Evidence
pub mod ActiveSet
mod Tests
use synthos_collective.Prelude.{
  ℕ, ◌+◌, ◌-◌, ◌*◌, ◌/◌, Bool, true, false, not, ◌&&◌, ◌||◌, Option, none, some, get_or, List, [],
  ◌∷◌, ltb, leb, if◌then◌else◌, ◌==◌, nat_eq, string_eq, String, length, ◌++◌,
}
use synthos_collective.Words.{add64}
use synthos_collective.Dict.{Dict, lookup, insert, delete}
use synthos_collective.Chain.Errors.{CoreError, StakingError, Error, core, staking}
use synthos_collective.Chain.Types.{
  Address, Account, UnbondingEntry, ValidatorRecord, State, Tx, account_of, set_account,
  metadata_value, set_validators,
}
use synthos_collective.Chain.Monad.{
  Result, ok, err, Action, pure, raise, gets, or_raise, lift, raise_if, modify, ◌>>=◌, ◌>>◌,
}
use synthos_collective.Chain.SafeMath.{safe_add}
use synthos_collective.Chain.Staking.Params.{ValidatorStakingParams, max_unbonding_entries}
use synthos_collective.Chain.Staking.Keys.{
  normalize_consensus_pub_key, validate_validator_profile, operator_for_key,
}

-- What a validator transaction sees of its block.
pub record TxContext : Type 0 where
  pub height : ℕ
  pub params : ValidatorStakingParams
  pub chain_id : String

-- What a transaction leaves of the sender's account and record.
abbrev pub Settled : Type 0
Settled = Account × ValidatorRecord

abbrev or_error : Result ℕ → Result ℕ → Result ℕ
or_error (ok n) e = ok n
or_error (err _) e = e

-- safeAdd with the caller's own error.
unfoldable pub checked_add : ℕ → ℕ → Error → Result ℕ
unfolding safe_add
checked_add a b e = or_error (safe_add a b) (err e)

abbrev pub new_record : Address → String → ℕ → ValidatorRecord
new_record operator key height = record {
  operator = operator;
  consensus_pub_key = key;
  moniker = "";
  endpoint = "";
  self_bond = 0;
  first_bond_height = height;
  unbonding = [];
  tombstoned = false;
}

abbrev is_tombstoned : Option ValidatorRecord → Bool
is_tombstoned none = false
is_tombstoned (some rec) = rec.tombstoned

-- The record that a bond works on: a new one under a free key, or the sender's own.
unfoldable pub bond_record :
    Address
    → String
    → ℕ
    → Option ValidatorRecord
    → Dict Address ValidatorRecord
    → Result ValidatorRecord
bond_record from raw_key height none registry = elim (normalize_consensus_pub_key raw_key) [
  | err e ↦ err e
  | ok key ↦
      if operator_for_key key registry == ""
      then ok (new_record from key height)
      else err (staking StakingError.key_in_use)
]
bond_record from raw_key height (some rec) registry =
    if raw_key == "" then ok rec else elim (normalize_consensus_pub_key raw_key) [
      | err e ↦ err e
      | ok key ↦
          if key == rec.consensus_pub_key then ok rec else err (staking StakingError.key_mismatch)
    ]

-- `if new != "" { old = new }`
abbrev keep_or : String → String → String
keep_or new old = if new == "" then old else new

-- The case "validator_bond". The debit runs only where the balance covers it.
unfoldable pub bond : TxContext → Tx → Account → Option ValidatorRecord → Action State Settled
unfolding checked_add
bond ctx tx acc found = do
  total ← lift (checked_add tx.amount tx.fee (core CoreError.amount_overflow))
  raise_if (ltb acc.balance total) (core CoreError.insufficient_funds)
  raise_if (is_tombstoned found) (staking StakingError.tombstoned)
  let raw_key = metadata_value tx.metadata "consensus_pub_key"
  registry ← gets (λ s. s.validators)
  rec ← lift (bond_record tx.from raw_key ctx.height found registry)
  let moniker = metadata_value tx.metadata "moniker"
  let endpoint = metadata_value tx.metadata "endpoint"
  _ ← lift (validate_validator_profile moniker endpoint)
  new_bond ← lift (checked_add rec.self_bond tx.amount (staking StakingError.self_bond_overflow))
  raise_if (ltb new_bond ctx.params.min_self_bond) (staking StakingError.bond_too_small)
  pure (
    record acc { balance = acc.balance - total },
    record rec {
      moniker = keep_or moniker rec.moniker;
      endpoint = keep_or endpoint rec.endpoint;
      self_bond = new_bond;
    },
  )

-- The case "validator_unbond".
unfoldable pub unbond : TxContext → Tx → Account → Option ValidatorRecord → Action State Settled
unfolding checked_add
unbond ctx tx acc found = do
  rec ← or_raise found (staking StakingError.not_found)
  raise_if (ltb rec.self_bond tx.amount) (staking StakingError.insufficient_bond)
  let remaining = rec.self_bond - tx.amount
  raise_if (ltb 0 remaining && ltb remaining ctx.params.min_self_bond)
      (staking StakingError.bond_too_small)
  raise_if (leb max_unbonding_entries (length rec.unbonding))
      (staking StakingError.too_many_unbonding)
  raise_if (ltb acc.balance tx.fee) (core CoreError.insufficient_funds)
  complete_at ←
      lift
        (checked_add ctx.height ctx.params.unbonding_blocks (staking StakingError.height_overflow))
  let entry : UnbondingEntry = record { amount = tx.amount; complete_at_height = complete_at }
  pure (
    record acc { balance = acc.balance - tx.fee },
    record rec { self_bond = remaining; unbonding = rec.unbonding ++ (entry ∷ []) },
  )

abbrev pub is_matured : ℕ → UnbondingEntry → Bool
is_matured height e = leb e.complete_at_height height

abbrev keep_pending :
    ℕ → UnbondingEntry → Result (ℕ × List UnbondingEntry) → Result (ℕ × List UnbondingEntry)
keep_pending height e (err x) = err x
keep_pending height e (ok (sum, pending)) =
    ok (sum, if is_matured height e then pending else e ∷ pending)

-- The loop over the entries: the sum of the matured ones, and the others in their order.
unfoldable pub collect_matured : ℕ → ℕ → List UnbondingEntry → Result (ℕ × List UnbondingEntry)
unfolding checked_add
collect_matured height matured [] = ok (matured, [])
collect_matured height matured (e ∷ rest) =
    let overflow = staking StakingError.withdraw_overflow in
    let sum = if is_matured height e then checked_add matured e.amount overflow else ok matured in
    elim sum [ err x ↦ err x | ok n ↦ keep_pending height e (collect_matured height n rest) ]

-- The case "validator_withdraw".
unfoldable pub withdraw : TxContext → Tx → Account → Option ValidatorRecord → Action State Settled
unfolding checked_add collect_matured
withdraw ctx tx acc found = do
  rec ← or_raise found (staking StakingError.not_found)
  (matured, pending) ← lift (collect_matured ctx.height 0 rec.unbonding)
  raise_if (matured == 0) (staking StakingError.nothing_matured)
  credited ← lift (checked_add acc.balance matured (staking StakingError.balance_overflow))
  raise_if (ltb credited tx.fee) (core CoreError.insufficient_funds)
  pure (record acc { balance = credited - tx.fee }, record rec { unbonding = pending })

-- The switch on the type.
unfoldable pub step_of :
    String → TxContext → Tx → Account → Option ValidatorRecord → Action State Settled
unfolding bond unbond withdraw
step_of tx_type ctx tx acc found =
    if tx_type == "validator_bond"
    then bond ctx tx acc found
    else if tx_type == "validator_unbond"
    then unbond ctx tx acc found
    else if tx_type == "validator_withdraw"
    then withdraw ctx tx acc found
    else raise (core CoreError.unhandled_tx_type)

abbrev pub is_spent : ValidatorRecord → Bool
is_spent rec = rec.self_bond == 0 && length rec.unbonding == 0 && not rec.tombstoned

-- The record is stored, or its entry goes when nothing is left in it; then the sender's account.
unfoldable pub settle : Tx → Settled → State → State
settle tx (acc, rec) s =
    let registry =
      if is_spent rec then delete tx.from s.validators else insert tx.from rec s.validators in
    set_account tx.from (record acc { nonce = add64 acc.nonce 1 }) (set_validators registry s)

-- applyValidatorTxCtx from the nonce check on: the types that are not evidence.
unfoldable pub apply_staking_tx : String → TxContext → Tx → Action State (Unit {0})
unfolding step_of settle
apply_staking_tx tx_type ctx tx = do
  acc ← gets (account_of tx.from)
  raise_if (not (tx.nonce == acc.nonce)) (core CoreError.bad_nonce)
  found ← gets (λ s. lookup tx.from s.validators)
  settled ← step_of tx_type ctx tx acc found
  modify (settle tx settled)
