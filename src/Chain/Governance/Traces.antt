-- ===== src/Chain/Governance/Traces.antt =====
-- governance.go: proposals over any sequence of governance transactions.
use synthos_collective.Prelude.{
  ℕ, ◌+◌, ◌≤◌, Bool, true, false, Option, some, none, inl, inr, List, [], ◌∷◌, arith, String,
  if◌then◌else◌, ◌==◌, string_eq, Option-cases, eq_iff,
}
use synthos_collective.Dict.{lookup, lookup-insert}
use synthos_collective.Chain.Types.{Address, Proposal, State, account_of}
use synthos_collective.Chain.Monad.{Result, ok, err, Action}
use synthos_collective.Chain.Governance.{
  create_governance_proposal, vote_governance, execute_governance_proposal, cast, new_proposal,
}

-- The three governance transactions. The total stake that gates an execution is read from the
-- state by the caller, so any value may come here.
pub data GovernanceOp : Type 0 where
  propose : Address → String → String → ℕ → Address → GovernanceOp
  vote : Address → String → Bool → GovernanceOp
  execute : String → ℕ → GovernanceOp

unfoldable pub apply_op : GovernanceOp → Action State (Unit {0})
apply_op (propose caller id text amount recipient) =
    create_governance_proposal caller id text amount recipient
apply_op (vote voter id in_favor) = vote_governance voter id in_favor
apply_op (execute id total) = execute_governance_proposal id total

abbrev paid_by : String → GovernanceOp → Result (Unit {0}) → ℕ
paid_by id (execute j total) (ok _) = if j == id then 1 else 0
paid_by id (execute j total) (err _) = 0
paid_by id (vote _ _ _) r = 0
paid_by id (propose _ _ _ _ _) r = 0

-- How often a sequence of transactions pays out the proposal `id`.
unfoldable pub payouts : String → List GovernanceOp → State → ℕ
payouts id [] s = 0
payouts id (op ∷ ops) s = let (r, s') = apply_op op s in paid_by id op r + payouts id ops s'

-- A payout is still to come only where the proposal is active, or not yet there.
abbrev open_for : Option Proposal → ℕ
open_for none = 1
open_for (some p) = if p.is_active then 1 else 0

abbrev budget : String → State → ℕ
budget id s = open_for (lookup id s.governance_proposals)

create-budget :
    (id : String) (caller : Address) (j text : String) (amount : ℕ) (recipient : Address)
    (s : State)
    → budget id (create_governance_proposal caller j text amount recipient s).1 ≤ budget id s
unfolding create_governance_proposal
create-budget id caller j text amount recipient s =
    let fresh = new_proposal j text amount recipient in
    ground (arith, lookup-insert j id fresh s.governance_proposals, eq_iff j id)

vote-budget :
    (id : String) (voter : Address) (j : String) (in_favor : Bool) (s : State)
    → budget id (vote_governance voter j in_favor s).1 ≤ budget id s
unfolding vote_governance
vote-budget id voter j in_favor s = elim (Option-cases (lookup j s.governance_proposals)) [
  | inl missing ↦ ground arith
  | inr (p, found) ↦
      let stake = (account_of voter s).balance in
      ground (
        arith,
        lookup-insert j id (cast voter in_favor stake p) s.governance_proposals,
        eq_iff j id,
      )
]

execute-budget :
    (id j : String) (total : ℕ) (s : State)
    → let (r, s') = execute_governance_proposal j total s in
      paid_by id (execute j total) r + budget id s' ≤ budget id s
unfolding execute_governance_proposal
execute-budget id j total s = elim (Option-cases (lookup j s.governance_proposals)) [
  | inl missing ↦ ground arith
  | inr (p, found) ↦
      let closed = record p { executed = true; is_active = false } in
      ground (arith, lookup-insert j id closed s.governance_proposals, eq_iff j id)
]

payouts-budget :
    (id : String) (ops : List GovernanceOp) (s : State) → payouts id ops s ≤ budget id s
unfolding payouts apply_op
payouts-budget id [] s = omega arith
payouts-budget id (propose c j text n r ∷ ops) s = omega (
  arith,
  create-budget id c j text n r s,
  payouts-budget id ops (create_governance_proposal c j text n r s).1,
)
payouts-budget id (vote v j b ∷ ops) s =
    omega (arith, vote-budget id v j b s, payouts-budget id ops (vote_governance v j b s).1)
payouts-budget id (execute j total ∷ ops) s = omega (
  arith,
  execute-budget id j total s,
  payouts-budget id ops (execute_governance_proposal j total s).1,
)

open_for-le : (o : Option Proposal) → open_for o ≤ 1
open_for-le none = omega arith
open_for-le (some p) = ground arith

-- From any state and over any sequence of governance transactions, a proposal id is paid out at
-- most once.
pub pays_once : (id : String) (ops : List GovernanceOp) (s : State) → payouts id ops s ≤ 1
pays_once id ops s =
    omega (arith, payouts-budget id ops s, open_for-le (lookup id s.governance_proposals))
