-- ===== src/Chain/Staking/Funds.antt =====
-- validator_staking.go: what bonding, unbonding and withdrawing do to the money. The funds of the
-- registry are the spendable balances and everything locked in records.
use synthos_collective.Prelude.{
  ℕ, ◌+◌, ◌≡◌, refl, ◌≢◌, List, [], ◌∷◌, Option, none, some, inl, inr, arith, nat_eq, string_eq,
  String, sum_by, sum_by-append, length,
}
use synthos_collective.Words.{add64}
use synthos_collective.Dict.{Dict, lookup}
use synthos_collective.Dict.Sum.{measure, sum_values, sum_values-insert, sum_values-delete}
use synthos_collective.Chain.Types.{
  Address, Account, UnbondingEntry, ValidatorRecord, State, Tx, account_of, metadata_value,
}
use synthos_collective.Chain.Monad.{Result, ok, err, Result-cases}
use synthos_collective.Chain.Errors.{Error}
use synthos_collective.Chain.SafeMath.{safe_add}
use synthos_collective.Chain.Citizen.Funds.{balance_of}
use synthos_collective.Chain.Staking.{
  TxContext, Settled, checked_add, bond_record, bond, unbond, withdraw, collect_matured, step_of,
  settle, apply_staking_tx,
}

abbrev pub entry_amount : UnbondingEntry → ℕ
entry_amount e = e.amount

-- What one record holds, and TotalValidatorLocked as a true sum.
abbrev pub locked_in : ValidatorRecord → ℕ
locked_in r = r.self_bond + sum_by entry_amount r.unbonding

abbrev pub stakes_and_balances : State → ℕ
stakes_and_balances s = sum_values balance_of s.accounts + sum_values locked_in s.validators

-- What a step promises: it writes nothing itself, and the fee is all that leaves the pair.
abbrev Moves : Tx → Account → Option ValidatorRecord → State → Result Settled × State → Type 0
Moves tx acc found s (ok (acc', rec'), s') =
    (s' ≡ s) × (acc'.balance + locked_in rec' + tx.fee ≡ acc.balance + measure locked_in found)
Moves tx acc found s (err _, s') = s' ≡ s

-- A record to bond on holds what the sender's record held.
bond_record-locked :
    (from : Address) (key : String) (height : ℕ) (found : Option ValidatorRecord)
    (registry : Dict Address ValidatorRecord) (rec : ValidatorRecord)
    → bond_record from key height found registry ≡ ok rec
    → locked_in rec ≡ measure locked_in found
unfolding bond_record
bond_record-locked from key height none registry rec h = ground arith
bond_record-locked from key height (some old) registry rec h = ground arith

checked_add_exact : (a b : ℕ) (e : Error) (c : ℕ) → checked_add a b e ≡ ok c → c ≡ a + b
unfolding checked_add safe_add
checked_add_exact a b e c h = ground arith

bond-Moves :
    (ctx : TxContext) (tx : Tx) (acc : Account) (found : Option ValidatorRecord) (s : State)
    → Moves tx acc found s (bond ctx tx acc found s)
unfolding bond checked_add safe_add
bond-Moves ctx tx acc found s =
    let key = metadata_value tx.metadata "consensus_pub_key" in
    elim (Result-cases (bond_record tx.from key ctx.height found s.validators)) [
      | inl (e, bad) ↦ ground arith
      | inr (rec, good) ↦
          ground (arith, bond_record-locked tx.from key ctx.height found s.validators rec)
    ]

unbond-Moves :
    (ctx : TxContext) (tx : Tx) (acc : Account) (found : Option ValidatorRecord) (s : State)
    → Moves tx acc found s (unbond ctx tx acc found s)
unfolding unbond checked_add safe_add
unbond-Moves ctx tx acc none s = ground arith
unbond-Moves ctx tx acc (some rec) s =
    let until = ctx.height + ctx.params.unbonding_blocks in
    let entry : UnbondingEntry = record { amount = tx.amount; complete_at_height = until } in
    ground (arith, sum_by-append entry_amount rec.unbonding (entry ∷ []))

-- Every entry that is not pending is in the sum.
collect_matured-sum :
    (height start : ℕ) (entries : List UnbondingEntry) (sum : ℕ) (pending : List UnbondingEntry)
    → collect_matured height start entries ≡ ok (sum, pending)
    → sum + sum_by entry_amount pending ≡ start + sum_by entry_amount entries
unfolding collect_matured checked_add safe_add
collect_matured-sum height start [] sum pending h = ground arith
collect_matured-sum height start (e ∷ rest) sum pending h =
    let taken = collect_matured height (start + e.amount) rest in
    elim (Result-cases taken) [
      | inl (x, bad) ↦ elim (Result-cases (collect_matured height start rest)) [
        | inl (y, worse) ↦ ground arith
        | inr ((n, ps), good) ↦ ground (arith, collect_matured-sum height start rest n ps)
      ]
      | inr ((n, ps), good) ↦ elim (Result-cases (collect_matured height start rest)) [
        | inl (y, worse) ↦ ground (arith, collect_matured-sum height (start + e.amount) rest n ps)
        | inr ((k, qs), fine) ↦ ground (
          arith,
          collect_matured-sum height (start + e.amount) rest n ps,
          collect_matured-sum height start rest k qs,
        )
      ]
    ]

withdraw-Moves :
    (ctx : TxContext) (tx : Tx) (acc : Account) (found : Option ValidatorRecord) (s : State)
    → Moves tx acc found s (withdraw ctx tx acc found s)
unfolding withdraw checked_add safe_add
withdraw-Moves ctx tx acc none s = ground arith
withdraw-Moves ctx tx acc (some rec) s =
    elim (Result-cases (collect_matured ctx.height 0 rec.unbonding)) [
      | inl (e, bad) ↦ ground arith
      | inr ((sum, pending), good) ↦
          ground (arith, collect_matured-sum ctx.height 0 rec.unbonding sum pending)
    ]

step_of-Moves :
    (tx_type : String) (ctx : TxContext) (tx : Tx) (acc : Account) (found : Option ValidatorRecord)
    (s : State)
    → Moves tx acc found s (step_of tx_type ctx tx acc found s)
unfolding step_of
step_of-Moves tx_type ctx tx acc found s = ground (
  arith,
  bond-Moves ctx tx acc found s,
  unbond-Moves ctx tx acc found s,
  withdraw-Moves ctx tx acc found s,
)

no_entries : (es : List UnbondingEntry) → length es ≡ 0 → sum_by entry_amount es ≡ 0
no_entries [] h = refl
no_entries (e ∷ es) h = omega arith

-- A record whose entry goes holds nothing.
settle-stakes :
    (tx : Tx) (acc : Account) (rec : ValidatorRecord) (s : State)
    → stakes_and_balances (settle tx (acc, rec) s)
        + (measure balance_of (lookup tx.from s.accounts)
            + measure locked_in (lookup tx.from s.validators))
      ≡ stakes_and_balances s + (balance_of acc + locked_in rec)
unfolding settle
settle-stakes tx acc rec s =
    let stored : Account = record acc { nonce = add64 acc.nonce 1 } in
    ground (
      arith,
      no_entries rec.unbonding,
      sum_values-insert balance_of tx.from stored s.accounts,
      sum_values-insert locked_in tx.from rec s.validators,
      sum_values-delete locked_in tx.from s.validators,
    )

-- A bond, unbond or withdrawal that succeeds takes the fee and nothing else out of the sum of all
-- balances and everything locked in validator records; one that fails changes nothing.
pub apply_staking_tx-funds :
    (tx_type : String) (ctx : TxContext) (tx : Tx) (s : State)
    → let (r, s') = apply_staking_tx tx_type ctx tx s in
      (r ≡ ok tt → stakes_and_balances s' + tx.fee ≡ stakes_and_balances s) × (r ≢ ok tt → s' ≡ s)
unfolding apply_staking_tx
apply_staking_tx-funds tx_type ctx tx s =
    let acc = account_of tx.from s in
    let found = lookup tx.from s.validators in
    let moves = step_of-Moves tx_type ctx tx acc found s in
    elim (Result-cases (step_of tx_type ctx tx acc found s).0) [
      | inl (e, bad) ↦ (λ h. ground arith, λ h. ground arith)
      | inr ((acc', rec'), good) ↦
          let settled = settle-stakes tx acc' rec' s in (λ h. ground arith, λ h. ground arith)
    ]
