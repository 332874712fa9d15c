-- ===== src/Chain/Epochs.antt =====
-- abci_support.go: the fees of a block, the payout of a fee epoch to the validators, and the entry
-- points by which a consensus engine slashes and bonds validators. A big.Int is a natural number,
-- and Uint64 takes its low 64 bits.
pub mod Payouts
pub mod Income
mod Tests
use synthos_collective.Prelude.{
  ℕ, ◌+◌, ◌-◌, ◌*◌, ◌/◌, ◌%◌, Bool, true, false, not, ◌&&◌, ◌||◌, Option, none, some, get_or, List,
  [], ◌∷◌, length, ltb, leb, if◌then◌else◌, ◌==◌, nat_eq, string_eq, String, text_ltb,
}
use synthos_collective.Words.{u64_mod, add64, sub64, mul64}
use synthos_collective.Dict.{Dict, lookup, insert}
use synthos_collective.Chain.Errors.{
  ChainError, CoreError, StakingError, Error, chain, core, staking,
}
use synthos_collective.Chain.Types.{
  Address, ActiveValidator, State, Tx, ValidatorRecord, account_of, set_account, set_validators,
}
use synthos_collective.Chain.Monad.{Result, ok, err, Action}
use synthos_collective.Chain.SafeMath.{safe_add}
use synthos_collective.Chain.Staking.{new_record}
use synthos_collective.Chain.Staking.Keys.{
  normalize_consensus_pub_key, operator_for_key, validate_validator_profile,
}
use synthos_collective.Chain.Staking.Evidence.{slash_and_tombstone}
use synthos_collective.Chain.Execution.{fee_model_v2_height}
use synthos_collective.Chain.Blocks.Fees.{burned_part, credit_proposer_fees, total_fees}

pub record FeeSplit : Type 0 where
  pub total : ℕ  -- TotalFees
  pub burned : ℕ  -- BurnAmount
  pub to_treasury : ℕ
  pub to_proposer : ℕ

-- `height < FeeModelV2ActivationHeight`, for an int64 by its bit pattern
abbrev pub is_fee_model_v1 : ℕ → Bool
is_fee_model_v1 height = ltb height fee_model_v2_height || leb 9_223_372_036_854_775_808 height

-- The fees under the first model: half to the proposer. The split is reported as all burned where
-- there is no proposer.
unfoldable pub apply_fees_v1 : List Tx → Address → Action State FeeSplit
unfolding total_fees credit_proposer_fees
apply_fees_v1 txs proposer s = elim (total_fees 0 txs) [
  | err e ↦ (err e, s)
  | ok total ↦
      let half = burned_part total in
      let all_burned = total == 0 || proposer == "" in
      let split : FeeSplit = record {
        total = total;
        burned = if all_burned then total else half;
        to_treasury = 0;
        to_proposer = if all_burned then 0 else total - half;
      } in
      elim (credit_proposer_fees txs proposer s) [ err e ↦ (err e, s) | ok s' ↦ (ok split, s') ]
]

-- The treasury's account and then its income of the epoch. An income that overflows leaves the
-- account credited.
unfoldable pub credit_treasury : ℕ → FeeSplit → Action State FeeSplit
unfolding safe_add
credit_treasury amount split s =
    let acc = account_of s.treasury_address s in
    elim (safe_add acc.balance amount) [
      | err _ ↦ (err (chain ChainError.treasury_overflow), s)
      | ok balance ↦
          let credited = set_account s.treasury_address (record acc { balance = balance }) s in
          elim (safe_add s.fee_epoch_treasury_income amount) [
            | err _ ↦ (err (chain ChainError.income_overflow), credited)
            | ok income ↦ (ok split, record credited { fee_epoch_treasury_income = income })
          ]
    ]

-- The fees under the second model: half to the treasury.
unfoldable pub apply_fees_v2 : List Tx → Action State FeeSplit
unfolding total_fees credit_treasury
apply_fees_v2 txs s = elim (total_fees 0 txs) [
  | err e ↦ (err e, s)
  | ok total ↦
      let half = burned_part total in
      let kept = total - half in
      if total == 0
      then (ok (record { total = 0; burned = 0; to_treasury = 0; to_proposer = 0 }), s)
      else if s.treasury_address == ""
      then (err (chain ChainError.treasury_required), s)
      else credit_treasury kept
          (record { total = total; burned = half; to_treasury = kept; to_proposer = 0 }) s
]

-- ApplyBlockFees
unfoldable pub apply_block_fees : List Tx → Address → ℕ → Action State FeeSplit
unfolding apply_fees_v1 apply_fees_v2
apply_block_fees txs proposer height s =
    if is_fee_model_v1 height then apply_fees_v1 txs proposer s else apply_fees_v2 txs s

-- RecordFeeEpochVote
unfoldable pub record_fee_epoch_vote : Address → ℕ → Bool → State → State
record_fee_epoch_vote op power committed s =
    let signed = s.fee_epoch_signed_power in
    let counted = committed && not (op == "") in
    if power == 0 then s else record s {
      fee_epoch_total_power = add64 s.fee_epoch_total_power power;
      fee_epoch_signed_power =
          if counted then insert op (add64 (get_or (lookup op signed) 0) power) signed else signed;
    }

pub record ValidatorPayout : Type 0 where
  pub operator : Address
  pub amount : ℕ
  pub epoch : ℕ

pub place_share : Address → ℕ → Dict Address ℕ → Dict Address ℕ
place_share op n [] = (op, n) ∷ []
place_share op n ((op', n') ∷ rest) =
    let below = place_share op n rest in
    if text_ltb op' op then (op', n') ∷ below else (op, n) ∷ (op', n') ∷ rest

-- The loop that gives every operator its share of the pool, in the order of the operators.
unfoldable pub shares_of : ℕ → ℕ → Dict Address ℕ → Dict Address ℕ
unfolding place_share
shares_of pool total [] = []
shares_of pool total ((op, power) ∷ rest) =
    place_share op (pool * power / total % u64_mod) (shares_of pool total rest)

abbrev pub sum_shares : ℕ → Dict Address ℕ → ℕ
sum_shares sum [] = sum
sum_shares sum ((_, share) ∷ rest) = sum_shares (add64 sum share) rest

-- The loop that scales the shares down to what the treasury has.
unfoldable pub scale_shares : ℕ → ℕ → Dict Address ℕ → Dict Address ℕ
scale_shares balance sum [] = []
scale_shares balance sum ((op, share) ∷ rest) =
    (op, share * balance / sum % u64_mod) ∷ scale_shares balance sum rest

-- One payment: what is paid, and the state after it. The operator's account is read after the
-- treasury's was written.
unfoldable pub pay_share : Address → ℕ → State → ℕ × State
pay_share op share s =
    let acc = account_of s.treasury_address s in
    let amount = if ltb acc.balance share then acc.balance else share in
    let debited =
      set_account s.treasury_address (record acc { balance = acc.balance - amount }) s in
    let receiver = account_of op debited in
    (amount, set_account op (record receiver { balance = add64 receiver.balance amount }) debited)

-- The loop over the operators.
unfoldable pub pay_shares : ℕ → Dict Address ℕ → State → List ValidatorPayout × State
unfolding pay_share
pay_shares epoch [] s = ([], s)
pay_shares epoch ((op, share) ∷ rest) s =
    let (amount, paid) = pay_share op share s in
    let (payouts, final) = pay_shares epoch rest (if share == 0 then s else paid) in
    (
      if share == 0
          then payouts
          else record { operator = op; amount = amount; epoch = epoch } ∷ payouts,
      final,
    )

abbrev pub reset_epoch : State → State
reset_epoch s = record s {
  fee_epoch_treasury_income = 0;
  fee_epoch_total_power = 0;
  fee_epoch_signed_power = [];
}

-- What each operator is to get: its share, scaled down where the treasury has less than all shares.
unfoldable pub due_shares : State → Dict Address ℕ
unfolding shares_of scale_shares
due_shares s =
    let shares =
      shares_of (s.fee_epoch_treasury_income / 2) s.fee_epoch_total_power
        s.fee_epoch_signed_power in
    let balance = (account_of s.treasury_address s).balance in
    let sum = sum_shares 0 shares in
    if ltb balance sum then scale_shares balance sum shares else shares

-- DistributeFeeEpochPayout, which returns no error
unfoldable pub distribute_fee_epoch_payout : ℕ → State → List ValidatorPayout × State
unfolding due_shares pay_shares
distribute_fee_epoch_payout epoch s =
    let (payouts, paid) = pay_shares epoch (due_shares s) s in
    if s.fee_epoch_total_power == 0
      || (s.fee_epoch_treasury_income / 2 == 0 || length s.fee_epoch_signed_power == 0)
    then ([], reset_epoch s)
    else (payouts, reset_epoch paid)

-- ValidatorByConsensusKey
unfoldable pub validator_by_consensus_key : String → State → Option ValidatorRecord
unfolding normalize_consensus_pub_key operator_for_key
validator_by_consensus_key key s = elim (normalize_consensus_pub_key key) [
  | err _ ↦ none
  | ok norm ↦
      let op = operator_for_key norm s.validators in
      if op == "" then none else lookup op s.validators
]

-- SlashForDoubleSign: what was burned, and none where nobody was slashed
unfoldable pub slash_for_double_sign : String → ℕ → State → Option ℕ × State
unfolding validator_by_consensus_key slash_and_tombstone
slash_for_double_sign key bps s = elim (validator_by_consensus_key key s) [
  | none ↦ (none, s)
  | some rec ↦
      let (updated, slashed) = slash_and_tombstone rec bps in
      if rec.tombstoned
      then (none, s)
      else (some slashed, set_validators (insert rec.operator updated s.validators) s)
]

-- ReplaceValidatorSetSnapshot
unfoldable pub replace_validator_set_snapshot : List ActiveValidator → State → State
replace_validator_set_snapshot set s = record s { validator_set_snapshot = set }

abbrev is_registered : Option ValidatorRecord → Bool
is_registered none = false
is_registered (some _) = true

-- The checks of BondGenesisValidator: the key in its normal form.
unfoldable pub check_genesis_bond : Address → String → ℕ → String → String → State → Result String
unfolding normalize_consensus_pub_key validate_validator_profile operator_for_key
check_genesis_bond operator key self_bond moniker endpoint s =
    elim (normalize_consensus_pub_key key) [
      | err e ↦ err e
      | ok norm ↦
          if self_bond == 0
          then err (chain ChainError.genesis_validator)
          else elim (validate_validator_profile moniker endpoint) [
            | err e ↦ err e
            | ok _ ↦
                if not (operator_for_key norm s.validators == "")
                then err (staking StakingError.key_in_use)
                else if is_registered (lookup operator s.validators)
                then err (chain ChainError.genesis_validator)
                else if ltb (account_of operator s).balance self_bond
                then err (core CoreError.insufficient_funds)
                else ok norm
          ]
    ]

-- BondGenesisValidator
unfoldable pub bond_genesis_validator :
    Address → String → ℕ → String → String → Action State (Unit {0})
unfolding check_genesis_bond
bond_genesis_validator operator key self_bond moniker endpoint s =
    elim (check_genesis_bond operator key self_bond moniker endpoint s) [
      | err e ↦ (err e, s)
      | ok norm ↦
          let acc = account_of operator s in
          let bonded : ValidatorRecord = record (new_record operator norm 0) {
            moniker = moniker;
            endpoint = endpoint;
            self_bond = self_bond;
          } in
          (
            ok tt,
            set_validators (insert operator bonded s.validators)
                (set_account operator (record acc { balance = acc.balance - self_bond }) s),
          )
    ]
