-- ===== src/Chain/Governance/Execution.antt =====
-- governance.go: what an executed proposal pays, and that it pays once.
use synthos_collective.Prelude.{
  ℕ, ◌+◌, ◌-◌, ◌≤◌, ◌≡◌, ◌≢◌, some, arith, String, if◌then◌else◌, ◌==◌, nat_eq, string_eq, get_or,
  eq_iff,
}
use synthos_collective.Dict.{Dict, lookup, insert, lookup-insert}
use synthos_collective.Dict.Sum.{sum_values, sum_values-insert}
use synthos_collective.Chain.Types.{Address, Account, Proposal, State, zero_account}
use synthos_collective.Chain.Monad.{ok}
use synthos_collective.Chain.Citizen.Funds.{balance_of}
use synthos_collective.Chain.Governance.{execute_governance_proposal, pay_out}

abbrev pub balances : State → ℕ
balances s = sum_values balance_of s.accounts

pay_out-balances :
    (t r : Address) (amount : ℕ) (m : Dict Address Account)
    → amount ≤ (get_or (lookup t m) zero_account).balance
    → sum_values balance_of (pay_out t r amount m)
      ≡ sum_values balance_of m + (if r == t then amount else 0)
unfolding pay_out
pay_out-balances t r amount m le =
    let treasury = get_or (lookup t m) zero_account in
    let receiver = get_or (lookup r m) zero_account in
    let paid = record treasury { balance = treasury.balance - amount } in
    let debit = sum_values-insert balance_of t paid m in
    let credit =
      sum_values-insert balance_of r (record receiver { balance = receiver.balance + amount })
        (insert t paid m) in
    let read = lookup-insert t r paid m in ground (arith, eq_iff r t, eq_iff t r)

-- What execution does to the sum of all balances. A payout to another address conserves it. A
-- payout to the treasury itself adds the amount: the recipient's balance was read before the debit.
-- An error changes nothing.
pub execute-balances :
    (id : String) (total : ℕ) (s : State) {p : Proposal}
    → lookup id s.governance_proposals ≡ some p
    → let (r, s') = execute_governance_proposal id total s in
      (r ≡ ok tt
        → balances s' ≡ balances s + (if p.recipient == s.treasury_address then p.amount else 0))
      × (r ≢ ok tt → s' ≡ s)
unfolding execute_governance_proposal
execute-balances id total s {p} found =
    let paid = pay_out-balances s.treasury_address p.recipient p.amount s.accounts in
    (λ h. ground (arith, paid), λ h. ground arith)
