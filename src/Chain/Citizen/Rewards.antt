-- ===== src/Chain/Citizen/Rewards.antt =====
-- citizen.go: how much a claim pays, and what the accrual clock remembers.
use synthos_collective.Prelude.{
  ℕ, ◌-◌, ◌*◌, ◌/◌, ◌≤◌, ◌<◌, ◌≡◌, some, get_or, arith, ltb, if◌then◌else◌, nat_eq, string_eq,
}
use synthos_collective.Words.{u64_mod, sub64, sub64_exact, mul64_exact}
use synthos_collective.Dict.{lookup, lookup-insert_self}
use synthos_collective.Chain.Types.{Address, CitizenStake, State, zero_stake, account_of}
use synthos_collective.Chain.Monad.{ok}
use synthos_collective.Chain.Citizen.{
  claim_citizen_rewards, pending_citizen_rewards, pay_reward, advance_clock,
}

pay_reward_result :
    (addr : Address) (now : ℕ) (t : Address) (rate pending payout : ℕ) (s : State) (p : ℕ)
    → (pay_reward addr now t rate pending payout s).0 ≡ ok p
    → p ≡ payout
unfolding pay_reward
pay_reward_result addr now t rate pending payout s p h = ground arith

-- A claim pays at most what has accrued, and at most what the treasury holds.
pub claim_bounds :
    (addr : Address) (now : ℕ) (s : State) {p : ℕ}
    → (claim_citizen_rewards addr now s).0 ≡ ok p
    → (p ≤ pending_citizen_rewards addr now s) × (p ≤ (account_of s.treasury_address s).balance)
unfolding claim_citizen_rewards
claim_bounds addr now s {p} h =
    let pending = pending_citizen_rewards addr now s in
    let treasury = account_of s.treasury_address s in
    let payout = if ltb treasury.balance pending then treasury.balance else pending in
    ground (
      arith,
      pay_reward_result addr now s.treasury_address s.citizen_reward_rate_bps_per_year pending
          payout s p,
    )

-- While the products fit in 64 bits, the accrual is the annual rate in basis points, pro rata.
pub pending_exact :
    (addr : Address) (now : ℕ) (s : State) {stake : CitizenStake}
    → lookup addr s.citizen_stakes ≡ some stake
    → stake.last_claim_at ≤ now
    → now < 9223372036854775808
    → stake.amount * s.citizen_reward_rate_bps_per_year < u64_mod
    → stake.amount * s.citizen_reward_rate_bps_per_year * (now - stake.last_claim_at) < u64_mod
    → pending_citizen_rewards addr now s
      ≡ stake.amount
        * s.citizen_reward_rate_bps_per_year
        * (now - stake.last_claim_at)
        / 315_360_000_000
unfolding pending_citizen_rewards
pending_exact addr now s {stake} found past fits small fits' =
    let rate = s.citizen_reward_rate_bps_per_year in
    let elapsed = sub64_exact now stake.last_claim_at past (omega arith) in
    let weight = mul64_exact stake.amount rate small in
    let product = mul64_exact (stake.amount * rate) (now - stake.last_claim_at) fits' in
    rw found (grind arith)

pay_reward_clock :
    (addr : Address) (now : ℕ) (t : Address) (rate payout : ℕ) (s : State) (p : ℕ)
    → (pay_reward addr now t rate payout payout s).0 ≡ ok p
    → pending_citizen_rewards addr now (pay_reward addr now t rate payout payout s).1 ≡ 0
unfolding pay_reward pending_citizen_rewards sub64
pay_reward_clock addr now t rate payout s p h =
    let stake = get_or (lookup addr s.citizen_stakes) zero_stake in
    let fresh =
      lookup-insert_self addr (advance_clock now rate payout payout stake) s.citizen_stakes in
    ground arith

-- After a claim that paid all that had accrued, nothing is left to claim at the same time.
no_double_claim :
    (addr : Address) (now : ℕ) (s : State)
    → (claim_citizen_rewards addr now s).0 ≡ ok (pending_citizen_rewards addr now s)
    → pending_citizen_rewards addr now (claim_citizen_rewards addr now s).1 ≡ 0
unfolding claim_citizen_rewards
no_double_claim addr now s h =
    let pending = pending_citizen_rewards addr now s in
    let treasury = account_of s.treasury_address s in
    let rate = s.citizen_reward_rate_bps_per_year in
    let payout = if ltb treasury.balance pending then treasury.balance else pending in
    ground (
      arith,
      pay_reward_clock addr now s.treasury_address rate pending s pending,
      pay_reward_result addr now s.treasury_address rate pending payout s pending,
    )
