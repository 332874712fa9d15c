-- ===== src/Chain/Governance/Tests.antt =====
-- governance.go at concrete inputs.
use synthos_collective.Prelude.{◌+◌, ◌≤◌, ◌≡◌, ◌≢◌, refl, true, false, string_eq, [], ◌∷◌, List}
use synthos_collective.Words.{add64, mul64}
use synthos_collective.Dict.{lookup, insert}
use synthos_collective.Chain.Errors.{GovernanceError, governance}
use synthos_collective.Chain.Types.{State, Proposal, new_state}
use synthos_collective.Chain.Monad.{ok, err}
use synthos_collective.Chain.Governance.{vote_governance, execute_governance_proposal, pay_out}
use synthos_collective.Chain.Governance.Votes.{vote_once}
use synthos_collective.Chain.Governance.Execution.{execute-balances, balances}
use synthos_collective.Chain.Governance.Traces.{
  GovernanceOp, vote, execute, payouts, pays_once, apply_op,
}

abbrev grant : Proposal
grant = record {
  id = "grant";
  description = "";
  amount = 40;
  recipient = "bob";
  votes_for = 100;
  votes_against = 20;
  is_active = true;
  executed = false;
  voters = ("alice", true) ∷ [];
}

abbrev council : State
unfolding new_state
council = record new_state {
  accounts =
      ("alice", record { balance = 100; assets = []; nonce = 0 })
      ∷ ("treasury", record { balance = 60; assets = []; nonce = 0 })
      ∷ [];
  governance_founder = "alice";
  treasury_address = "treasury";
  governance_proposals = ("grant", grant) ∷ [];
}

vote_once_example :
    (vote_governance "treasury" "grant" false (vote_governance "treasury" "grant" true council).1).0
    ≡ err (governance GovernanceError.already_voted)
unfolding vote_governance lookup insert new_state
vote_once_example = vote_once "treasury" "grant" true false council refl

execute-balances_example :
    let (r, s') = execute_governance_proposal "grant" 160 council in
    (r ≡ ok tt → balances s' ≡ balances council + 0) × (r ≢ ok tt → s' ≡ council)
unfolding lookup new_state
execute-balances_example = execute-balances "grant" 160 council {p = grant} refl

-- A grant to the treasury itself: 40 coins appear.
abbrev self_grant : State
unfolding new_state
self_grant = record council {
  governance_proposals = ("grant", record grant { recipient = "treasury" }) ∷ [];
}

self_grant_test :
    (balances self_grant ≡ 160)
    × (balances (execute_governance_proposal "grant" 160 self_grant).1 ≡ 200)
unfolding execute_governance_proposal pay_out lookup insert new_state mul64
self_grant_test = (refl, refl)

abbrev session : List GovernanceOp
session = vote "treasury" "grant" true ∷ execute "grant" 160 ∷ execute "grant" 160 ∷ []

pays_once_example : payouts "grant" session council ≤ 1
pays_once_example = pays_once "grant" session council

payouts_test : payouts "grant" session council ≡ 1
unfolding payouts apply_op execute_governance_proposal vote_governance pay_out lookup insert
    new_state mul64 add64
payouts_test = refl
