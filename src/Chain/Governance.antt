-- ===== src/Chain/Governance.antt =====
-- governance.go: treasury proposals on the State. The map of pointers to Proposal is a map of
-- values: the code reaches a proposal through the map alone, so a write through the pointer is a
-- write of the entry.
pub mod Votes
pub mod Execution
pub mod Traces
mod Tests
use synthos_collective.Prelude.{
  ℕ, ◌+◌, ◌-◌, ◌*◌, ◌/◌, Bool, true, false, not, ◌&&◌, ◌||◌, Option, none, some, get_or, List, [],
  ◌∷◌, ltb, leb, if◌then◌else◌, ◌==◌, nat_eq, string_eq, String,
}
use synthos_collective.Words.{add64, mul64}
use synthos_collective.Dict.{Dict, lookup, insert}
use synthos_collective.Chain.Errors.{GovernanceError, governance}
use synthos_collective.Chain.Types.{Address, Account, Proposal, State, account_of, zero_account}
use synthos_collective.Chain.Monad.{
  Result, ok, err, Action, raise, gets, or_raise, lift, raise_if, modify, ◌>>=◌, ◌>>◌,
}
use synthos_collective.Chain.SafeMath.{safe_add}

-- GovernanceQuorumBasisPoints
abbrev pub quorum_basis_points : ℕ
quorum_basis_points = 500

-- The loop of TotalStake, which adds without a check.
unfoldable pub total_from : ℕ → Dict Address Account → ℕ
total_from total [] = total
total_from total ((_, acc) ∷ rest) = total_from (add64 total acc.balance) rest

unfoldable pub total_stake : State → ℕ
unfolding total_from
total_stake s = total_from 0 s.accounts

abbrev pub set_proposal : String → Proposal → State → State
set_proposal id p s = record s { governance_proposals = insert id p s.governance_proposals }

-- p.Voters[a], with false for a missing entry
abbrev pub has_voted : Address → Proposal → Bool
has_voted a p = get_or (lookup a p.voters) false

abbrev pub new_proposal : String → String → ℕ → Address → Proposal
new_proposal id description amount recipient = record {
  id = id;
  description = description;
  amount = amount;
  recipient = recipient;
  votes_for = 0;
  votes_against = 0;
  is_active = true;
  executed = false;
  voters = [];
}

abbrev exists_in {ℓ} : {V : Type ℓ} → Option V → Bool
exists_in none = false
exists_in (some _) = true

unfoldable pub create_governance_proposal :
    Address → String → String → ℕ → Address → Action State (Unit {0})
create_governance_proposal caller id description amount recipient = do
  raise_if (id == "") (governance GovernanceError.empty_id)
  raise_if (recipient == "") (governance GovernanceError.empty_recipient)
  founder ← gets (λ s. s.governance_founder)
  raise_if (founder == "") (governance GovernanceError.not_configured)
  raise_if (not (caller == founder)) (governance GovernanceError.not_founder)
  found ← gets (λ s. lookup id s.governance_proposals)
  raise_if (exists_in found) (governance GovernanceError.proposal_exists)
  modify (set_proposal id (new_proposal id description amount recipient))

-- The proposal with one more vote, of weight `stake`.
abbrev pub cast : Address → Bool → ℕ → Proposal → Proposal
cast voter in_favor stake p =
    if in_favor
    then record p { votes_for = add64 p.votes_for stake; voters = insert voter true p.voters }
    else record p {
      votes_against = add64 p.votes_against stake;
      voters = insert voter true p.voters;
    }

unfoldable pub vote_governance : Address → String → Bool → Action State (Unit {0})
vote_governance voter id in_favor = do
  raise_if (id == "") (governance GovernanceError.empty_id)
  p ←
      or_raise (← gets (λ s. lookup id s.governance_proposals))
        (governance GovernanceError.not_active)
  raise_if (not p.is_active) (governance GovernanceError.not_active)
  raise_if (has_voted voter p) (governance GovernanceError.already_voted)
  acc ← gets (account_of voter)
  raise_if (acc.balance == 0) (governance GovernanceError.no_stake)
  modify (set_proposal id (cast voter in_favor acc.balance p))

-- The quorum test, which a total stake of 0 switches off.
abbrev pub below_quorum : ℕ → Proposal → Bool
below_quorum total p = ltb 0 total && ltb p.votes_for (mul64 total quorum_basis_points / 10000)

-- GovernanceProposalPassed
unfoldable pub governance_proposal_passed : String → ℕ → State → Result Bool
governance_proposal_passed id total s = elim (lookup id s.governance_proposals) [
  | none ↦ err (governance GovernanceError.no_proposal)
  | some p ↦
      if leb p.votes_for p.votes_against
      then ok false
      else if below_quorum total p
      then ok false
      else ok true
]

-- The two account writes of a payout. Both accounts were read before the first write.
unfoldable pub pay_out : Address → Address → ℕ → Dict Address Account → Dict Address Account
pay_out treasury_address recipient amount accounts =
    let treasury = get_or (lookup treasury_address accounts) zero_account in
    let receiver = get_or (lookup recipient accounts) zero_account in
    insert recipient (record receiver { balance = receiver.balance + amount })
      (insert treasury_address (record treasury { balance = treasury.balance - amount }) accounts)

unfoldable pub execute_governance_proposal : String → ℕ → Action State (Unit {0})
unfolding safe_add
execute_governance_proposal id total = do
  raise_if (id == "") (governance GovernanceError.empty_id)
  p ←
      or_raise (← gets (λ s. lookup id s.governance_proposals))
        (governance GovernanceError.not_active)
  raise_if (not p.is_active) (governance GovernanceError.not_active)
  raise_if p.executed (governance GovernanceError.already_executed)
  raise_if (leb p.votes_for p.votes_against) (governance GovernanceError.not_enough_votes)
  raise_if (below_quorum total p) (governance GovernanceError.quorum_not_reached)
  treasury_address ← gets (λ s. s.treasury_address)
  raise_if (treasury_address == "") (governance GovernanceError.no_treasury)
  treasury ← gets (account_of treasury_address)
  raise_if (ltb treasury.balance p.amount) (governance GovernanceError.treasury_insufficient)
  recipient ← gets (account_of p.recipient)
  elim (safe_add recipient.balance p.amount) [
    | err _ ↦ raise (governance GovernanceError.recipient_overflow)
    | ok _ ↦ do
      modify (set_proposal id (record p { executed = true; is_active = false }))
      modify (λ s. record s { accounts = pay_out treasury_address p.recipient p.amount s.accounts })
  ]

-- GovernanceVotesCastBy
unfoldable pub votes_cast_by : Address → Dict String Proposal → ℕ
votes_cast_by voter [] = 0
votes_cast_by voter ((_, p) ∷ rest) =
    let more = votes_cast_by voter rest in if has_voted voter p then more + 1 else more
