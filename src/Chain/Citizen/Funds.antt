-- ===== src/Chain/Citizen/Funds.antt =====
-- citizen.go: what staking does to the money. The funds of the role are the spendable balances and
-- the stakes.
use synthos_collective.Prelude.{
  ℕ, ◌+◌, ◌-◌, ◌≤◌, ◌<◌, ◌≡◌, some, inl, inr, get_or, arith, ltb, if◌then◌else◌, ◌==◌, nat_eq,
  eq_iff, string_eq, Option-cases,
}
use synthos_collective.Dict.{Dict, lookup, insert, insert-insert, insert_same, lookup-insert}
use synthos_collective.Dict.Sum.{sum_values, sum_values-insert}
use synthos_collective.Chain.Types.{
  Address, Account, CitizenStake, State, zero_account, zero_stake, account_of,
}
use synthos_collective.Chain.Monad.{Result, ok, err}
use synthos_collective.Chain.Citizen.{
  claim_citizen_rewards, pending_citizen_rewards, pay_reward, advance_clock,
}

abbrev pub balance_of : Account → ℕ
balance_of a = a.balance

abbrev pub staked_of : CitizenStake → ℕ
staked_of c = c.amount

-- All balances and all stakes, as one true sum.
abbrev pub funds : State → ℕ
funds s = sum_values balance_of s.accounts + sum_values staked_of s.citizen_stakes

-- A call that began at `s` and moved no money in or out of the role.
abbrev pub Conserves : {A : Type 0} → State → Result A × State → Type 0
Conserves s (ok _, s') = funds s' ≡ funds s
Conserves s (err _, s') = s' ≡ s

-- The rollback of a debit: writing the old balance back restores the accounts.
pub insert_restore :
    (a : Address) (n : ℕ) (acc : Account) (m : Dict Address Account)
    → lookup a m ≡ some acc
    → n ≤ acc.balance
    → insert a
        (record acc { balance = acc.balance - n + n })
        (insert a (record acc { balance = acc.balance - n }) m)
      ≡ m
insert_restore a n acc m found le =
    let same : acc.balance - n + n ≡ acc.balance = omega arith in
    rw insert-insert (rw same (insert_same a acc m found))

-- The transfer out of the treasury keeps the funds, also where the staker is the treasury.
pay_reward-Conserves :
    (addr : Address) (now : ℕ) (treasury_address : Address) (rate pending payout : ℕ) (s : State)
    → 0 < payout
    → payout ≤ (account_of treasury_address s).balance
    → Conserves s (pay_reward addr now treasury_address rate pending payout s)
unfolding pay_reward
pay_reward-Conserves addr now treasury_address rate pending payout s pos le =
    elim (Option-cases (lookup treasury_address s.accounts)) [
      | inl missing ↦ ground arith
      | inr (treasury, found) ↦
          let paid = record treasury { balance = treasury.balance - payout } in
          let accounts = insert treasury_address paid s.accounts in
          let acc = get_or (lookup addr accounts) zero_account in
          let stake = get_or (lookup addr s.citizen_stakes) zero_stake in
          ground (
            arith,
            insert_restore treasury_address payout treasury s.accounts found,
            sum_values-insert balance_of treasury_address paid s.accounts,
            sum_values-insert balance_of addr (record acc { balance = acc.balance + payout })
                accounts,
            sum_values-insert staked_of addr (advance_clock now rate pending payout stake)
                s.citizen_stakes,
          )
    ]

-- What a claim does to one address `b`: a payout leaves the treasury and reaches the claimant, who
-- may be the treasury, and no balance but theirs and no stake changes.
abbrev pub PaidFrom : Address → Address → Address → State → Result ℕ × State → Type 0
PaidFrom treasury addr b s (ok p, s') =
    ((account_of b s').balance + (if b == treasury then p else 0)
      ≡ (account_of b s).balance + (if b == addr then p else 0))
    × ((get_or (lookup b s'.citizen_stakes) zero_stake).amount
        ≡ (get_or (lookup b s.citizen_stakes) zero_stake).amount)
PaidFrom treasury addr b s (err _, s') = s' ≡ s

clock_keeps_amount :
    (now rate pending payout : ℕ) (stake : CitizenStake)
    → (advance_clock now rate pending payout stake).amount ≡ stake.amount
unfolding advance_clock
clock_keeps_amount now rate pending payout stake = ground arith

held_after :
    (k j : Address) (v : Account) (m : Dict Address Account)
    → (get_or (lookup j (insert k v m)) zero_account).balance
      ≡ (if k == j then v.balance else (get_or (lookup j m) zero_account).balance)
held_after k j v m = let at = lookup-insert k j v m in ground (arith, at)

-- The balance of `b` after `payout` went from `t` to `a`.
moved_balance :
    (t a b : Address) (payout : ℕ) (m : Dict Address Account)
    → payout ≤ (get_or (lookup t m) zero_account).balance
    → let treasury = get_or (lookup t m) zero_account in
      let m' = insert t (record treasury { balance = treasury.balance - payout }) m in
      let acc = get_or (lookup a m') zero_account in
      let m'' = insert a (record acc { balance = acc.balance + payout }) m' in
      (get_or (lookup b m'') zero_account).balance + (if b == t then payout else 0)
      ≡ (get_or (lookup b m) zero_account).balance + (if b == a then payout else 0)
moved_balance t a b payout m le =
    let treasury = get_or (lookup t m) zero_account in
    let paid : Account = record treasury { balance = treasury.balance - payout } in
    let m' = insert t paid m in
    let acc = get_or (lookup a m') zero_account in
    let at_a = held_after t a paid m in
    let at_b = held_after t b paid m in
    let final = held_after a b (record acc { balance = acc.balance + payout }) m' in
    ground (arith, eq_iff a b, eq_iff b a, eq_iff t b, eq_iff b t, eq_iff t a)

kept_stake :
    (addr b : Address) (now rate pending payout : ℕ) (m : Dict Address CitizenStake)
    → let stake = get_or (lookup addr m) zero_stake in
      (get_or
        (lookup b (insert addr (advance_clock now rate pending payout stake) m))
        zero_stake).amount
      ≡ (get_or (lookup b m) zero_stake).amount
kept_stake addr b now rate pending payout m =
    let stake = get_or (lookup addr m) zero_stake in
    let at = lookup-insert addr b (advance_clock now rate pending payout stake) m in
    let same = clock_keeps_amount now rate pending payout stake in ground (arith, eq_iff addr b)

pay_reward-PaidFrom :
    (addr b : Address) (now : ℕ) (treasury_address : Address) (rate pending payout : ℕ) (s : State)
    → 0 < payout
    → payout ≤ (account_of treasury_address s).balance
    → PaidFrom treasury_address addr b s
        (pay_reward addr now treasury_address rate pending payout s)
unfolding pay_reward
pay_reward-PaidFrom addr b now treasury_address rate pending payout s pos le =
    elim (Option-cases (lookup treasury_address s.accounts)) [
      | inl missing ↦ ground arith
      | inr (treasury, found) ↦ ground (
        arith,
        insert_restore treasury_address payout treasury s.accounts found,
        moved_balance treasury_address addr b payout s.accounts le,
        kept_stake addr b now rate pending payout s.citizen_stakes,
      )
    ]

-- A claim keeps the sum of all balances and stakes. Its payout leaves the balance of the treasury
-- and reaches that of the claimant, the same one where the claimant is the treasury; every other
-- balance and the amount of every stake stay as they were. An error changes nothing.
pub claim_citizen_rewards-Conserves :
    (addr b : Address) (now : ℕ) (s : State)
    → Conserves s (claim_citizen_rewards addr now s)
      × PaidFrom s.treasury_address addr b s (claim_citizen_rewards addr now s)
unfolding claim_citizen_rewards
claim_citizen_rewards-Conserves addr b now s =
    let pending = pending_citizen_rewards addr now s in
    let treasury = account_of s.treasury_address s in
    let payout = if ltb treasury.balance pending then treasury.balance else pending in
    (
      ground (
        arith,
        pay_reward-Conserves addr now s.treasury_address s.citizen_reward_rate_bps_per_year pending
            payout s,
      ),
      ground (
        arith,
        pay_reward-PaidFrom addr b now s.treasury_address s.citizen_reward_rate_bps_per_year pending
            payout s,
      ),
    )
