-- ===== src/Chain/Blocks/Fees.antt =====
-- chain.go: what a block's fees do: half is burned, and the proposer gets the rest.
use synthos_collective.Prelude.{
  ℕ, ◌-◌, ◌/◌, ◌||◌, List, [], ◌∷◌, if◌then◌else◌, ◌==◌, nat_eq, string_eq,
}
use synthos_collective.Words.{mul64}
use synthos_collective.Chain.Errors.{ChainError, chain}
use synthos_collective.Chain.Types.{Address, State, Tx, account_of, set_account}
use synthos_collective.Chain.Monad.{Result, ok, err}
use synthos_collective.Chain.SafeMath.{safe_add}

-- BURN_PERCENT
abbrev pub burn_percent : ℕ
burn_percent = 50

-- The loop that adds the fees up.
unfoldable pub total_fees : ℕ → List Tx → Result ℕ
unfolding safe_add
total_fees sum [] = ok sum
total_fees sum (tx ∷ rest) = elim (safe_add sum tx.fee) [
  | err _ ↦ err (chain ChainError.fee_overflow)
  | ok next ↦ total_fees next rest
]

abbrev pub burned_part : ℕ → ℕ
burned_part total = mul64 total burn_percent / 100

-- creditProposerFees, and applyBlockEconomics
unfoldable pub credit_proposer_fees : List Tx → Address → State → Result State
unfolding total_fees safe_add
credit_proposer_fees txs proposer s = elim (total_fees 0 txs) [
  | err e ↦ err e
  | ok total ↦
      let acc = account_of proposer s in
      if total == 0 || proposer == ""
      then ok s
      else elim (safe_add acc.balance (total - burned_part total)) [
        | err _ ↦ err (chain ChainError.reward_overflow)
        | ok balance ↦ ok (set_account proposer (record acc { balance = balance }) s)
      ]
]
