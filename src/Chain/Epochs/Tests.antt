-- ===== src/Chain/Epochs/Tests.antt =====
-- abci_support.go's fees and payouts at concrete inputs.
use synthos_collective.Prelude.{
  ◌≡◌, ◌≤◌, ◌/◌, refl, true, false, List, [], ◌∷◌, length, sum_by, arith,
}
use synthos_collective.Words.{add64, mul64}
use synthos_collective.Dict.{lookup, insert}
use synthos_collective.Chain.Types.{State, account_of, new_state}
use synthos_collective.Chain.Monad.{ok}
use synthos_collective.Chain.Governance.Execution.{balances}
use synthos_collective.Chain.Execution.Samples.{payment}
use synthos_collective.Chain.Epochs.{FeeSplit, apply_block_fees, distribute_fee_epoch_payout}
use synthos_collective.Chain.Epochs.Payouts.{paid_amount, distribute_fee_epoch_payout-balances}
use synthos_collective.Chain.Epochs.Income.{
  FeeVote, Settled, record_votes, record_votes_bounds, apply_block_fees-Settled,
}

-- A treasury of 1000 that earned 400 in the epoch.
abbrev funded : State
unfolding new_state
funded = record new_state {
  accounts = ("treasury", record { balance = 1000; assets = []; nonce = 0 }) ∷ [];
  treasury_address = "treasury";
  fee_epoch_treasury_income = 400;
}

-- Two validators with power 3 and 1, of which the smaller one missed the second block.
abbrev epoch_votes : List FeeVote
epoch_votes = (("a", 3), true) ∷ ((("b", 1), true) ∷ ((("a", 3), true) ∷ ((("b", 1), false) ∷ [])))

abbrev voted : State
voted = record_votes epoch_votes funded

payouts_shared :
    (distribute_fee_epoch_payout 7 voted).0
    ≡ record { operator = "a"; amount = 150; epoch = 7 }
      ∷ (record { operator = "b"; amount = 25; epoch = 7 } ∷ [])
unfolding distribute_fee_epoch_payout funded record_votes new_state lookup insert add64
payouts_shared = refl

distribute_fee_epoch_payout-balances_example :
    let s' = (distribute_fee_epoch_payout 7 voted).1 in
    (balances s' ≡ balances voted)
    × (s'.fee_epoch_treasury_income ≡ 0)
    × (s'.fee_epoch_total_power ≡ 0)
    × (length s'.fee_epoch_signed_power ≡ 0)
unfolding funded record_votes new_state
distribute_fee_epoch_payout-balances_example =
    distribute_fee_epoch_payout-balances 7 voted (omega arith)

record_votes_bounds_example :
    let s' = record_votes epoch_votes funded in
    let payouts = (distribute_fee_epoch_payout 7 s').0 in
    (sum_by paid_amount payouts ≤ s'.fee_epoch_treasury_income / 2)
    × (sum_by paid_amount payouts ≤ (account_of s'.treasury_address s').balance)
unfolding funded record_votes new_state
record_votes_bounds_example =
    record_votes_bounds 7 epoch_votes funded (omega arith) (omega arith) (omega arith)

abbrev split_of_ten : FeeSplit
split_of_ten = record { total = 10; burned = 5; to_treasury = 5; to_proposer = 0 }

splits : (apply_block_fees (payment 0 ∷ []) "" 200_000 funded).0 ≡ ok split_of_ten
unfolding apply_block_fees funded new_state lookup insert mul64
splits = refl

apply_block_fees-Settled_example :
    Settled
      (payment 0 ∷ [])
      split_of_ten
      funded
      (apply_block_fees (payment 0 ∷ []) "" 200_000 funded).1
apply_block_fees-Settled_example =
    apply_block_fees-Settled (payment 0 ∷ []) "" 200_000 split_of_ten funded (omega arith) splits
