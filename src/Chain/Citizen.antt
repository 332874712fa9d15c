-- ===== src/Chain/Citizen.antt =====
-- citizen.go: staking for the Citizen role. A method is an action on the State; the mutex is not
-- modelled, since each method holds it from its first read to its last write.
pub mod Funds
pub mod Rewards
mod Tests
use synthos_collective.Prelude.{
  ℕ, ◌+◌, ◌-◌, ◌*◌, ◌/◌, Bool, ◌||◌, not, Option, none, some, get_or, ltb, if◌then◌else◌, ◌==◌,
  nat_eq, string_eq,
}
use synthos_collective.Words.{add64, sub64, mul64, is_positive}
use synthos_collective.Dict.{Dict, lookup, insert, delete}
use synthos_collective.Chain.Errors.{CoreError, CitizenError, core, citizen}
use synthos_collective.Chain.Types.{
  Address, Account, CitizenStake, State, zero_stake, account_of, set_account,
}
use synthos_collective.Chain.Monad.{
  Result, ok, err, Action, pure, raise, gets, or_raise, raise_if, modify, ◌>>=◌, ◌>>◌,
}
use synthos_collective.Chain.SafeMath.{safe_add}

-- SecondsPerYear
abbrev pub seconds_per_year : ℕ
seconds_per_year = 31_536_000

abbrev pub set_stake : Address → CitizenStake → State → State
set_stake a stake s = record s { citizen_stakes = insert a stake s.citizen_stakes }

-- `if stake.StakedAt == 0 { stake.StakedAt = now; stake.LastClaimAt = now }`
abbrev pub start_clock : ℕ → CitizenStake → CitizenStake
start_clock now stake =
    if stake.staked_at == 0 then record stake { staked_at = now; last_claim_at = now } else stake

-- The debit runs only where the balance covers it, so the truncated `-` is exact.
unfoldable pub stake_citizen : Address → ℕ → ℕ → Action State (Unit {0})
unfolding safe_add
stake_citizen addr amount now = do
  raise_if (amount == 0) (citizen CitizenError.stake_not_positive)
  acc ← or_raise (← gets (λ s. lookup addr s.accounts)) (core CoreError.insufficient_funds)
  raise_if (ltb acc.balance amount) (core CoreError.insufficient_funds)
  modify (set_account addr (record acc { balance = acc.balance - amount }))
  found ← gets (λ s. get_or (lookup addr s.citizen_stakes) zero_stake)
  let stake = start_clock now found
  elim (safe_add stake.amount amount) [
    | ok next ↦ modify (set_stake addr (record stake { amount = next }))
    | err _ ↦ do
      modify (set_account addr (record acc { balance = acc.balance - amount + amount }))
      raise (citizen CitizenError.stake_overflow)
  ]

-- The stake loses `amount`, and its entry goes when nothing is left.
abbrev release : Address → ℕ → CitizenStake → State → State
release addr amount stake s =
    if stake.amount - amount == 0
    then record s { citizen_stakes = delete addr s.citizen_stakes }
    else set_stake addr (record stake { amount = stake.amount - amount }) s

unfoldable pub unstake_citizen : Address → ℕ → Action State (Unit {0})
unfolding safe_add
unstake_citizen addr amount = do
  raise_if (amount == 0) (citizen CitizenError.unstake_not_positive)
  stake ← or_raise (← gets (λ s. lookup addr s.citizen_stakes)) (citizen CitizenError.no_stake)
  raise_if (stake.amount == 0) (citizen CitizenError.no_stake)
  raise_if (ltb stake.amount amount) (citizen CitizenError.insufficient_stake)
  modify (release addr amount stake)
  acc ← gets (account_of addr)
  elim (safe_add acc.balance amount) [
    | ok balance ↦ modify (set_account addr (record acc { balance = balance }))
    | err _ ↦ raise (citizen CitizenError.unstake_overflow)
  ]

-- stake.Amount * rate * elapsed / (10000 * SecondsPerYear), for an int64 clock.
unfoldable pub pending_for : ℕ → ℕ → Option CitizenStake → ℕ
pending_for rate now none = 0
pending_for rate now (some stake) =
    let elapsed = sub64 now stake.last_claim_at in
    if stake.amount == 0
    then 0
    else if not (is_positive elapsed)
    then 0
    else mul64 (mul64 stake.amount rate) elapsed / (10000 * seconds_per_year)

-- pendingCitizenRewardsLocked
unfoldable pub pending_citizen_rewards : Address → ℕ → State → ℕ
unfolding pending_for
pending_citizen_rewards addr now s =
    if s.citizen_reward_rate_bps_per_year == 0
    then 0
    else pending_for s.citizen_reward_rate_bps_per_year now (lookup addr s.citizen_stakes)

-- elapsedCoveredBySeconds
unfoldable pub elapsed_covered_by_seconds : CitizenStake → ℕ → ℕ → ℕ
elapsed_covered_by_seconds stake payout rate =
    let denom = mul64 stake.amount rate in
    if stake.amount == 0 || rate == 0
    then 0
    else if denom == 0
    then 0
    else mul64 (mul64 payout 10000) seconds_per_year / denom

-- The accrual clock after a payout of `payout` against `pending`.
unfoldable pub advance_clock : ℕ → ℕ → ℕ → ℕ → CitizenStake → CitizenStake
unfolding elapsed_covered_by_seconds
advance_clock now rate pending payout stake =
    if payout == pending then record stake { last_claim_at = now } else record stake {
      last_claim_at = add64 stake.last_claim_at (elapsed_covered_by_seconds stake payout rate);
    }

-- The part of ClaimCitizenRewards that moves a payout above 0 out of the treasury.
unfoldable pub pay_reward : Address → ℕ → Address → ℕ → ℕ → ℕ → Action State ℕ
unfolding safe_add advance_clock
pay_reward addr now treasury_address rate pending payout = do
  treasury ← gets (account_of treasury_address)
  modify (set_account treasury_address (record treasury { balance = treasury.balance - payout }))
  acc ← gets (account_of addr)
  elim (safe_add acc.balance payout) [
    | ok balance ↦ do
      modify (set_account addr (record acc { balance = balance }))
      stake ← gets (λ s. get_or (lookup addr s.citizen_stakes) zero_stake)
      modify (set_stake addr (advance_clock now rate pending payout stake))
      pure payout
    | err _ ↦ do
      modify (
          set_account treasury_address
            (record treasury { balance = treasury.balance - payout + payout }))
      raise (citizen CitizenError.claim_overflow)
  ]

unfoldable pub claim_citizen_rewards : Address → ℕ → Action State ℕ
claim_citizen_rewards addr now = do
  treasury_address ← gets (λ s. s.treasury_address)
  rate ← gets (λ s. s.citizen_reward_rate_bps_per_year)
  raise_if (treasury_address == "" || rate == 0) (citizen CitizenError.rewards_not_configured)
  pending ← gets (pending_citizen_rewards addr now)
  treasury ← gets (account_of treasury_address)
  let payout = if ltb treasury.balance pending then treasury.balance else pending
  if pending == 0 || payout == 0
      then pure 0
      else pay_reward addr now treasury_address rate pending payout
