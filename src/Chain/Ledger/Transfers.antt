-- ===== src/Chain/Ledger/Transfers.antt =====
-- core.go: what a generic transfer does to balances and assets.
use synthos_collective.Prelude.{
  ℕ, ◌+◌, ◌-◌, ◌≡◌, refl, true, false, arith, String, nat_eq, string_eq, eq_iff, if◌then◌else◌,
  ◌==◌,
}
use synthos_collective.Dict.{lookup, insert, lookup-insert, lookup-insert_self}
use synthos_collective.Dict.Sum.{sum_values, sum_values-insert}
use synthos_collective.Chain.Types.{Account, State, Tx, account_of, zero_account}
use synthos_collective.Chain.Monad.{ok}
use synthos_collective.Chain.SafeMath.{safe_add}
use synthos_collective.Chain.Citizen.Funds.{balance_of}
use synthos_collective.Chain.Governance.Execution.{balances}
use synthos_collective.Chain.Ledger.{is_native, asset_of, debit, credit, transfer, settle_transfer}

-- All of one asset.
abbrev pub holdings : String → State → ℕ
holdings id s = sum_values (asset_of id) s.accounts

-- What a transfer to oneself destroys.
abbrev pub self_loss : Tx → ℕ
self_loss tx = if tx.to == tx.from then tx.amount else 0

debit_amounts :
    (tx : Tx) (from sender : Account)
    → debit tx from ≡ ok sender
    → (sender.balance + tx.fee + (if is_native tx.asset_id then tx.amount else 0) ≡ from.balance)
      × (is_native tx.asset_id ≡ false
          → asset_of tx.asset_id sender + tx.amount ≡ asset_of tx.asset_id from)
unfolding debit safe_add
debit_amounts tx from sender h =
    let left = asset_of tx.asset_id from - tx.amount in
    let read = lookup-insert_self tx.asset_id left from.assets in
    (ground arith, λ other. ground arith)

credit_amounts :
    (tx : Tx) (to recipient : Account)
    → credit tx to ≡ ok recipient
    → (recipient.balance ≡ to.balance + (if is_native tx.asset_id then tx.amount else 0))
      × (is_native tx.asset_id ≡ false
          → asset_of tx.asset_id recipient ≡ asset_of tx.asset_id to + tx.amount)
unfolding credit safe_add
credit_amounts tx to recipient h =
    let held = asset_of tx.asset_id to + tx.amount in
    let read = lookup-insert_self tx.asset_id held to.assets in
    (ground arith, λ other. ground arith)

pub transfer_parts :
    (tx : Tx) (s : State) (sender recipient : Account)
    → transfer tx s ≡ ok (sender, recipient)
    → (debit tx (account_of tx.from s) ≡ ok sender)
      × (credit tx (account_of tx.to s) ≡ ok recipient)
unfolding transfer
transfer_parts tx s sender recipient h = ground arith

nothing_held : (id : String) → asset_of id zero_account ≡ 0
unfolding lookup
nothing_held id = refl

-- A transfer that succeeds and is written takes the fee out of the sum of all balances and keeps
-- the sum of the asset that it moves, except that a transfer to oneself destroys the amount too:
-- of the balances for a native transfer, of the asset for any other.
pub transfer_funds :
    (tx : Tx) (s : State) (sender recipient : Account)
    → transfer tx s ≡ ok (sender, recipient)
    → let s' = settle_transfer tx (sender, recipient) s in
      (is_native tx.asset_id ≡ true → balances s' + tx.fee + self_loss tx ≡ balances s)
      × (is_native tx.asset_id ≡ false
          → (balances s' + tx.fee ≡ balances s)
            × (holdings tx.asset_id s' + self_loss tx ≡ holdings tx.asset_id s))
unfolding settle_transfer
transfer_funds tx s sender recipient h =
    let parts = transfer_parts tx s sender recipient h in
    let out = debit_amounts tx (account_of tx.from s) sender parts.0 in
    let in_ = credit_amounts tx (account_of tx.to s) recipient parts.1 in
    let paid = insert tx.to recipient s.accounts in
    let read = lookup-insert tx.to tx.from recipient s.accounts in
    let same = eq_iff tx.to tx.from in
    let a = sum_values-insert balance_of tx.to recipient s.accounts in
    let b = sum_values-insert balance_of tx.from sender paid in
    let c = sum_values-insert (asset_of tx.asset_id) tx.to recipient s.accounts in
    let d = sum_values-insert (asset_of tx.asset_id) tx.from sender paid in
    let none_held = nothing_held tx.asset_id in
    (
      λ native. ground arith,
      λ other. let sent = out.1 other in let got = in_.1 other in (ground arith, ground arith),
    )
