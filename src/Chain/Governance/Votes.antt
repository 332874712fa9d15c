-- ===== src/Chain/Governance/Votes.antt =====
-- governance.go: who may propose, and that an address votes once.
use synthos_collective.Prelude.{
  ℕ, ◌≡◌, Bool, true, some, none, inl, inr, arith, String, nat_eq, string_eq, get_or, Option-cases,
  eq_iff,
}
use synthos_collective.Dict.{lookup, lookup-insert_self}
use synthos_collective.Chain.Errors.{GovernanceError, governance}
use synthos_collective.Chain.Types.{Address, State, zero_account}
use synthos_collective.Chain.Monad.{ok, err}
use synthos_collective.Chain.Governance.{
  create_governance_proposal, vote_governance, cast, new_proposal,
}

-- Only the configured founder creates proposals, under an id that was free; the new proposal is
-- active with no votes, and no account changes.
create_founder_only :
    (caller : Address) (id description : String) (amount : ℕ) (recipient : Address) (s : State)
    → (create_governance_proposal caller id description amount recipient s).0 ≡ ok tt
    → let s' = (create_governance_proposal caller id description amount recipient s).1 in
      (caller ≡ s.governance_founder)
      × (lookup id s.governance_proposals ≡ none)
      × (lookup id s'.governance_proposals ≡ some (new_proposal id description amount recipient))
      × (s'.accounts ≡ s.accounts)
unfolding create_governance_proposal
create_founder_only caller id description amount recipient s h =
    let fresh = new_proposal id description amount recipient in
    let stored = lookup-insert_self id fresh s.governance_proposals in
    ground (arith, eq_iff caller s.governance_founder)

-- A second vote by the same address on the same proposal is refused, whichever way either vote
-- went.
pub vote_once :
    (voter : Address) (id : String) (first second : Bool) (s : State)
    → (vote_governance voter id first s).0 ≡ ok tt
    → (vote_governance voter id second (vote_governance voter id first s).1).0
      ≡ err (governance GovernanceError.already_voted)
unfolding vote_governance
vote_once voter id first second s h = elim (Option-cases (lookup id s.governance_proposals)) [
  | inl missing ↦ ground arith
  | inr (p, found) ↦
      let stake = (get_or (lookup voter s.accounts) zero_account).balance in
      let stored = lookup-insert_self id (cast voter first stake p) s.governance_proposals in
      let marked = lookup-insert_self voter true p.voters in ground arith
]
