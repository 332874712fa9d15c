-- ===== src/Chain/Ledger/Fees.antt =====
-- core.go: the fee of a citizen or governance transaction.
use synthos_collective.Prelude.{◌+◌, ◌≤◌, ◌<◌, ◌≡◌, arith, nat_eq, string_eq}
use synthos_collective.Words.{u64_mod, IsWord, add64, sub64}
use synthos_collective.Dict.Sum.{sum_values-insert}
use synthos_collective.Chain.Types.{Account, State, Tx, account_of}
use synthos_collective.Chain.Citizen.Funds.{balance_of, funds}
use synthos_collective.Chain.Ledger.{charge_fee}

-- The fee charged after a citizen or governance action, for a balance and a fee that are uint64
-- values, leaves the sum of all balances and stakes lower by the fee where the balance covers it,
-- and otherwise higher by 2^64 less the fee.
pub charge_fee-funds :
    (tx : Tx) (s : State)
    → IsWord (account_of tx.from s).balance
    → tx.fee < u64_mod
    → (tx.fee ≤ (account_of tx.from s).balance → funds (charge_fee tx s) + tx.fee ≡ funds s)
      × ((account_of tx.from s).balance < tx.fee
          → funds (charge_fee tx s) + tx.fee ≡ funds s + u64_mod)
unfolding charge_fee sub64
charge_fee-funds tx s word small =
    let acc = account_of tx.from s in
    let charged : Account = record acc {
      balance = sub64 acc.balance tx.fee;
      nonce = add64 acc.nonce 1;
    } in
    let written = sum_values-insert balance_of tx.from charged s.accounts in
    (λ enough. ground arith, λ short. ground arith)
