-- ===== src/Chain/Blocks/Rewards.antt =====
-- chain.go: what creditProposerFees adds to the supply.
use synthos_collective.Prelude.{
  ℕ, ◌+◌, ◌-◌, ◌*◌, ◌/◌, ◌<◌, ◌≡◌, ◌≢◌, ◌||◌, refl, inl, inr, List, [], ◌∷◌, sum_by, if◌then◌else◌,
  ◌==◌, nat_eq, string_eq, eq_iff, arith,
}
use synthos_collective.Words.{u64_mod, mul64, mul64_exact}
use synthos_collective.Chain.Types.{Address, Account, State, Tx, account_of}
use synthos_collective.Chain.Monad.{ok, Result-cases}
use synthos_collective.Chain.SafeMath.{safe_add}
use synthos_collective.Chain.Citizen.Funds.{balance_of}
use synthos_collective.Chain.Governance.Execution.{balances}
use synthos_collective.Chain.Exchange.Supply.{sum_values-write}
use synthos_collective.Chain.Blocks.Fees.{total_fees, burned_part, credit_proposer_fees}

abbrev pub fee_of : Tx → ℕ
fee_of tx = tx.fee

pub total_fees-sum :
    (sum : ℕ) (txs : List Tx) (total : ℕ)
    → total_fees sum txs ≡ ok total
    → total ≡ sum + sum_by fee_of txs
unfolding total_fees safe_add
total_fees-sum sum [] total h = ground arith
total_fees-sum sum (tx ∷ rest) total h = ground (arith, total_fees-sum (sum + tx.fee) rest total)

pub credited :
    (txs : List Tx) (proposer : Address) (s s' : State) (total : ℕ)
    → total_fees 0 txs ≡ ok total
    → credit_proposer_fees txs proposer s ≡ ok s'
    → balances s'
      ≡ balances s + (if total == 0 || proposer == "" then 0 else total - burned_part total)
unfolding credit_proposer_fees safe_add
credited txs proposer s s' total fees h =
    let acc = account_of proposer s in
    let paid : Account = record acc { balance = acc.balance + (total - burned_part total) } in
    let written = sum_values-write balance_of refl proposer paid s.accounts in ground (arith, fees)

half_added :
    (total before_ after_ : ℕ) (proposer : Address)
    → proposer ≢ ""
    → mul64 total 50 ≡ total * 50
    → after_ ≡ before_ + (if total == 0 || proposer == "" then 0 else total - burned_part total)
    → after_ + total / 2 ≡ before_ + total
half_added total before_ after_ proposer named exact added = ground (arith, eq_iff proposer "")

-- For a named proposer and a block whose fees times 50 fit in 64 bits, crediting the fees adds
-- what half of them, rounded down, leaves of their sum to the sum of all balances.
pub credit_proposer_fees-balances :
    (txs : List Tx) (proposer : Address) (s s' : State)
    → proposer ≢ ""
    → sum_by fee_of txs * 50 < u64_mod
    → credit_proposer_fees txs proposer s ≡ ok s'
    → balances s' + sum_by fee_of txs / 2 ≡ balances s + sum_by fee_of txs
unfolding credit_proposer_fees
credit_proposer_fees-balances txs proposer s s' named small h =
    elim (Result-cases (total_fees 0 txs)) [
      | inl (e, bad) ↦ ground (arith, bad)
      | inr (total, fees) ↦
          let sum = total_fees-sum 0 txs total fees in
          let added = credited txs proposer s s' total fees h in
          let exact = mul64_exact total 50 (omega arith) in
          let half = half_added total (balances s) (balances s') proposer named exact added in
          omega arith
    ]
