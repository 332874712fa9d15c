-- ===== src/Chain/Staking/Tests.antt =====
-- validator_staking.go at concrete inputs.
use synthos_collective.Prelude.{
  ℕ, ◌+◌, ◌*◌, ◌/◌, ◌≤◌, ◌<◌, ◌≡◌, refl, ◌≢◌, Bool, true, false, [], ◌∷◌, arith, length, All,
  String, string_eq, List,
}
use synthos_collective.Words.{add64, sub64, mul64}
use synthos_collective.Text.{join, trim_prefix, to_lower, trim_space, is_hex_bytes, has_prefix}
use synthos_collective.Dict.{lookup, insert}
use synthos_collective.Chain.Types.{
  Address, KeyValuePair, Tx, State, ValidatorRecord, UnbondingEntry, new_state, account_of,
}
use synthos_collective.Chain.Monad.{ok}
use synthos_collective.Chain.Staking.{TxContext, apply_staking_tx}
use synthos_collective.Chain.Staking.Params.{ValidatorStakingParams}
use synthos_collective.Chain.Staking.Funds.{locked_in, stakes_and_balances, apply_staking_tx-funds}
use synthos_collective.Chain.Staking.Evidence.{
  slash_and_tombstone, apply_validator_evidence, check_evidence, parse_metadata_uint,
}
use synthos_collective.Chain.Staking.Keys.{normalize_consensus_pub_key, operator_for_key}
use synthos_collective.Chain.Staking.Evidence.Slash.{slash_exact}
use synthos_collective.Chain.Staking.Evidence.Reports.{apply_validator_evidence-funds}
use synthos_collective.Chain.Staking.ActiveSet.{
  active_validator_set, active_validator_set-IsRanked, IsRanked, IsBacked, effective_min,
}

abbrev rules : ValidatorStakingParams
rules = record {
  enabled_from_height = 10;
  min_self_bond = 1000;
  unbonding_blocks = 50;
  max_active_validators = 2;
  consensus_from_height = 100;
  epoch_blocks = 20;
  slash_fraction_bps = 500;
  reporter_reward_bps = 1000;
}

abbrev at_block : TxContext
at_block = record { height = 130; params = rules; chain_id = "synthos-test" }

abbrev carol_key : String
carol_key = "0x1111111111111111111111111111111111111111111111111111111111111111"

abbrev record_of : Address → String → ℕ → List UnbondingEntry → ValidatorRecord
record_of op key stake entries = record {
  operator = op;
  consensus_pub_key = key;
  moniker = "";
  endpoint = "";
  self_bond = stake;
  first_bond_height = 11;
  unbonding = entries;
  tombstoned = false;
}

abbrev carol : ValidatorRecord
carol = record_of "carol" carol_key 20_000 (
    record { amount = 600; complete_at_height = 120 }
    ∷ record { amount = 400; complete_at_height = 150 }
    ∷ [])

abbrev net : State
unfolding new_state
net = record new_state {
  accounts =
      ("carol", record { balance = 700; assets = []; nonce = 2 })
      ∷ ("dave", record { balance = 90; assets = []; nonce = 0 })
      ∷ [];
  validators = ("carol", carol) ∷ ("erin", record_of "erin" "0x22" 30_000 []) ∷ [];
}

abbrev tx_of : Address → ℕ → ℕ → ℕ → List KeyValuePair → Tx
tx_of from amount fee nonce metadata = record {
  id = "t";
  chain_id = 1;
  from = from;
  to = "";
  amount = amount;
  fee = fee;
  nonce = nonce;
  public_key = "";
  signature = "";
  asset_id = "";
  metadata = metadata;
  timestamp = 0;
}

withdraw_test :
    (account_of "carol"
      (apply_staking_tx "validator_withdraw" at_block (tx_of "carol" 1 5 2 []) net).1).balance
    ≡ 1295
unfolding apply_staking_tx lookup insert new_state add64
withdraw_test = refl

apply_staking_tx-funds_example :
    let (r, s') = apply_staking_tx "validator_unbond" at_block (tx_of "carol" 5000 5 2 []) net in
    (r ≡ ok tt → stakes_and_balances s' + 5 ≡ stakes_and_balances net) × (r ≢ ok tt → s' ≡ net)
apply_staking_tx-funds_example =
    apply_staking_tx-funds "validator_unbond" at_block (tx_of "carol" 5000 5 2 []) net

slash_exact_example :
    let (rec', slashed) = slash_and_tombstone carol 500 in
    (locked_in rec' + slashed ≡ locked_in carol)
    × (rec'.self_bond + 20_000 * 500 / 10_000 ≡ 20_000)
    × (length rec'.unbonding ≡ 2)
    × (rec'.tombstoned ≡ true)
    × (rec'.consensus_pub_key ≡ carol_key)
slash_exact_example = slash_exact carol 500 (omega arith) (omega arith)

abbrev signs_nothing_else : String → String → String → Bool
signs_nothing_else key message signature = true

abbrev a_signature : String
a_signature =
    join "0000000000000000000000000000000000000000000000000000000000000000"
      "1111111111111111111111111111111111111111111111111111111111111111"

abbrev evidence : List KeyValuePair
evidence =
    record { key = "consensus_pub_key"; value = carol_key }
    ∷ record { key = "kind"; value = "approve" }
    ∷ record { key = "evidence_height"; value = "125" }
    ∷ record {
      key = "hash_a";
      value = "0xaaaaaaaaaaaaaaaaaaaaaaaaaaaaaaaaaaaaaaaaaaaaaaaaaaaaaaaaaaaaaaaa";
    }
    ∷ record {
      key = "hash_b";
      value = "0xbbbbbbbbbbbbbbbbbbbbbbbbbbbbbbbbbbbbbbbbbbbbbbbbbbbbbbbbbbbbbbbb";
    }
    ∷ record { key = "sig_a"; value = a_signature }
    ∷ record { key = "sig_b"; value = a_signature }
    ∷ []

apply_validator_evidence-funds_example :
    let (r, s') =
      apply_validator_evidence signs_nothing_else at_block (tx_of "dave" 1 5 0 evidence) net in
    (r ≡ ok tt → stakes_and_balances s' + 5 ≤ stakes_and_balances net) × (r ≢ ok tt → s' ≡ net)
unfolding new_state
apply_validator_evidence-funds_example =
    apply_validator_evidence-funds signs_nothing_else at_block (tx_of "dave" 1 5 0 evidence) net
      (omega arith) (omega arith) (omega arith)

active_validator_set-IsRanked_example :
    let vs = active_validator_set rules net in
    IsRanked vs
    × All (IsBacked (effective_min rules) net.validators) vs
    × (0 < 2 → 2 < 9223372036854775808 → length vs ≤ 2)
unfolding new_state lookup
active_validator_set-IsRanked_example = active_validator_set-IsRanked rules net (refl, (refl, tt))

report_test :
    (apply_validator_evidence signs_nothing_else at_block (tx_of "dave" 1 5 0 evidence) net).0
    ≡ ok tt
unfolding apply_validator_evidence lookup insert new_state add64 sub64 mul64 check_evidence
    normalize_consensus_pub_key trim_prefix to_lower trim_space is_hex_bytes parse_metadata_uint
    has_prefix operator_for_key
report_test = refl
