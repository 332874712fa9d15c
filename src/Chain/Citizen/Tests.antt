-- ===== src/Chain/Citizen/Tests.antt =====
-- citizen.go at concrete inputs.
use synthos_collective.Prelude.{ℕ, ◌*◌, ◌/◌, ◌-◌, ◌≤◌, ◌≡◌, refl, [], ◌∷◌, arith}
use synthos_collective.Words.{sub64, mul64}
use synthos_collective.Dict.{lookup, insert}
use synthos_collective.Chain.Types.{State, CitizenStake, new_state, account_of}
use synthos_collective.Chain.Monad.{ok}
use synthos_collective.Chain.Citizen.{claim_citizen_rewards, pending_citizen_rewards, pay_reward}
use synthos_collective.Chain.Citizen.Funds.{Conserves, PaidFrom, claim_citizen_rewards-Conserves}
use synthos_collective.Chain.Citizen.Rewards.{claim_bounds, pending_exact}

abbrev alice_stake : CitizenStake
alice_stake = record { amount = 1_000_000; staked_at = 1000; last_claim_at = 1000 }

-- A 5% rate, and a year's worth of seconds on the clock.
abbrev town : State
unfolding new_state
town = record new_state {
  accounts =
      ("alice", record { balance = 500; assets = []; nonce = 3 })
      ∷ ("treasury", record { balance = 90_000; assets = []; nonce = 0 })
      ∷ [];
  citizen_stakes = ("alice", alice_stake) ∷ [];
  treasury_address = "treasury";
  citizen_reward_rate_bps_per_year = 500;
}

abbrev year_later : ℕ
year_later = 31_537_000

pending_test : pending_citizen_rewards "alice" year_later town ≡ 50_000
unfolding pending_citizen_rewards lookup new_state sub64 mul64
pending_test = refl

claim_test : (claim_citizen_rewards "alice" year_later town).0 ≡ ok 50_000
unfolding claim_citizen_rewards pay_reward pending_citizen_rewards lookup insert new_state sub64
    mul64
claim_test = refl

claim_citizen_rewards-Conserves_example :
    Conserves town (claim_citizen_rewards "alice" year_later town)
    × PaidFrom town.treasury_address "alice" "treasury" town
        (claim_citizen_rewards "alice" year_later town)
claim_citizen_rewards-Conserves_example =
    claim_citizen_rewards-Conserves "alice" "treasury" year_later town

claim_bounds_example :
    (50_000 ≤ pending_citizen_rewards "alice" year_later town)
    × (50_000 ≤ (account_of town.treasury_address town).balance)
claim_bounds_example = claim_bounds "alice" year_later town claim_test

pending_exact_example :
    pending_citizen_rewards "alice" year_later town
    ≡ 1_000_000 * 500 * (year_later - 1000) / 315_360_000_000
unfolding lookup new_state
pending_exact_example =
    pending_exact "alice" year_later town {stake = alice_stake} refl (omega arith) (omega arith)
      (omega arith) (omega arith)
