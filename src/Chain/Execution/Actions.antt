-- ===== src/Chain/Execution/Actions.antt =====
-- core.go, citizen.go and governance.go: no action of a transaction changes a nonce.
use synthos_collective.Prelude.{
  ℕ, ◌+◌, ◌-◌, Bool, ◌≡◌, refl, sym, ◌∙◌, inl, inr, get_or, arith, ltb, nat_eq, string_eq, eq_iff,
  String, Option-cases, if◌then◌else◌, ◌==◌,
}
use synthos_collective.Dict.{Dict, lookup, insert, lookup-insert, lookup-insert_self}
use synthos_collective.Chain.Types.{
  Address, Account, State, Tx, account_of, zero_account, metadata_value,
}
use synthos_collective.Words.{add64, sub64}
use synthos_collective.Chain.Monad.{Result, ok, err, Result-cases}
use synthos_collective.Chain.Ledger.{
  citizen_action, claim_from, propose_from, execute_from, required_upfront,
  apply_citizen_governance_tx, charge_fee,
}
use synthos_collective.Chain.Staking.Evidence.{parse_metadata_uint}
use synthos_collective.Chain.Citizen.{
  stake_citizen, unstake_citizen, claim_citizen_rewards, pay_reward, pending_citizen_rewards,
}
use synthos_collective.Chain.Governance.{
  create_governance_proposal, vote_governance, execute_governance_proposal, pay_out, total_stake,
}

abbrev pub nonce_of : Address → State → ℕ
nonce_of a s = (account_of a s).nonce

-- What a transaction did to a nonce: one more for its sender where it succeeded.
abbrev pub CountsNonce : Address → Tx → State → Result (Unit {0}) × State → Type 0
CountsNonce a tx s (ok _, s') =
    nonce_of a s' ≡ (if tx.from == a then add64 (nonce_of a s) 1 else nonce_of a s)
CountsNonce a tx s (err _, s') = nonce_of a s' ≡ nonce_of a s

-- A write that keeps the nonce of the account it writes.
pub write-nonce :
    (a b : Address) (acc : Account) (m : Dict Address Account)
    → acc.nonce ≡ (get_or (lookup b m) zero_account).nonce
    → (get_or (lookup a (insert b acc m)) zero_account).nonce
      ≡ (get_or (lookup a m) zero_account).nonce
write-nonce a b acc m same =
    let found = lookup-insert b a acc m in let e = eq_iff b a in ground arith

module _ (a : Address) where
  stake-nonce :
      (addr : Address) (amount now : ℕ) (s : State)
      → nonce_of a (stake_citizen addr amount now s).1 ≡ nonce_of a s
  unfolding stake_citizen
  stake-nonce addr amount now s = elim (Option-cases (lookup addr s.accounts)) [
    | inl missing ↦ ground arith
    | inr (acc, found) ↦
        let debited = record acc { balance = acc.balance - amount } in
        let restored = record acc { balance = acc.balance - amount + amount } in
        let kept = write-nonce a addr debited s.accounts in
        let back = write-nonce a addr restored (insert addr debited s.accounts) in
        let read = lookup-insert_self addr debited s.accounts in ground (arith, found)
  ]

  unstake-nonce :
      (addr : Address) (amount : ℕ) (s : State)
      → nonce_of a (unstake_citizen addr amount s).1 ≡ nonce_of a s
  unfolding unstake_citizen
  unstake-nonce addr amount s =
      let acc = account_of addr s in
      let kept =
        write-nonce a addr (record acc { balance = acc.balance + amount }) s.accounts refl in
      ground arith

  pay_out-nonce :
      (t r : Address) (amount : ℕ) (m : Dict Address Account)
      → (get_or (lookup a (pay_out t r amount m)) zero_account).nonce
        ≡ (get_or (lookup a m) zero_account).nonce
  unfolding pay_out
  pay_out-nonce t r amount m =
      let treasury = get_or (lookup t m) zero_account in
      let receiver = get_or (lookup r m) zero_account in
      let paid = record treasury { balance = treasury.balance - amount } in
      write-nonce a r (record receiver { balance = receiver.balance + amount }) (insert t paid m)
        (sym (write-nonce r t paid m refl))
      ∙ write-nonce a t paid m refl

  execute-nonce :
      (id : String) (total : ℕ) (s : State)
      → nonce_of a (execute_governance_proposal id total s).1 ≡ nonce_of a s
  unfolding execute_governance_proposal
  execute-nonce id total s = elim (Option-cases (lookup id s.governance_proposals)) [
    | inl missing ↦ ground (arith, missing)
    | inr (p, found) ↦
        let kept = pay_out-nonce s.treasury_address p.recipient p.amount s.accounts in
        ground (arith, found, kept)
  ]

  pay_reward-nonce :
      (addr : Address) (now : ℕ) (t : Address) (rate pending payout : ℕ) (s : State)
      → nonce_of a (pay_reward addr now t rate pending payout s).1 ≡ nonce_of a s
  unfolding pay_reward
  pay_reward-nonce addr now t rate pending payout s =
      let treasury = account_of t s in
      let debited = record treasury { balance = treasury.balance - payout } in
      let restored = record treasury { balance = treasury.balance - payout + payout } in
      let paid = insert t debited s.accounts in
      let acc = get_or (lookup addr paid) zero_account in
      let a1 = write-nonce a t debited s.accounts refl in
      let a2 = write-nonce a addr (record acc { balance = acc.balance + payout }) paid refl in
      let a3 = write-nonce a t restored paid (sym (write-nonce t t debited s.accounts refl)) in
      ground arith

  claim-nonce :
      (addr : Address) (now : ℕ) (s : State)
      → nonce_of a (claim_citizen_rewards addr now s).1 ≡ nonce_of a s
  unfolding claim_citizen_rewards
  claim-nonce addr now s =
      let pending = pending_citizen_rewards addr now s in
      let treasury = (account_of s.treasury_address s).balance in
      let payout = (if ltb treasury pending then treasury else pending) in
      let kept =
        pay_reward-nonce addr now s.treasury_address s.citizen_reward_rate_bps_per_year pending
          payout s in
      ground arith

  create-nonce :
      (caller : Address) (id description : String) (amount : ℕ) (recipient : Address) (s : State)
      → nonce_of a (create_governance_proposal caller id description amount recipient s).1
        ≡ nonce_of a s
  unfolding create_governance_proposal
  create-nonce caller id description amount recipient s = ground arith

  vote-nonce :
      (voter : Address) (id : String) (in_favor : Bool) (s : State)
      → nonce_of a (vote_governance voter id in_favor s).1 ≡ nonce_of a s
  unfolding vote_governance
  vote-nonce voter id in_favor s = elim (Option-cases (lookup id s.governance_proposals)) [
    | inl missing ↦ ground (arith, missing)
    | inr (p, found) ↦ ground (arith, found)
  ]

  citizen_action-nonce :
      (tx : Tx) (tx_type : String) (s : State)
      → nonce_of a (citizen_action tx tx_type s).1 ≡ nonce_of a s
  unfolding citizen_action claim_from propose_from execute_from
  citizen_action-nonce tx tx_type s =
      let read = metadata_value tx.metadata in
      let c1 = stake-nonce tx.from tx.amount tx.timestamp s in
      let c2 = unstake-nonce tx.from tx.amount s in
      let c3 = claim-nonce tx.from tx.timestamp s in
      let c5 = vote-nonce tx.from (read "proposal_id") (read "in_favor" == "true") s in
      let c6 = execute-nonce (read "proposal_id") (total_stake s) s in
      elim (Option-cases (parse_metadata_uint tx.metadata "amount")) [
        | inl bad ↦ ground (arith, bad)
        | inr (amount, parsed) ↦
            let c4 =
              create-nonce tx.from (read "id") (read "description") amount (read "recipient") s in
            ground (arith, parsed)
      ]

-- A write that counts the nonce of the account it writes.
pub count-nonce :
    (a b : Address) (acc : Account) (m : Dict Address Account)
    → acc.nonce ≡ add64 (get_or (lookup b m) zero_account).nonce 1
    → (get_or (lookup a (insert b acc m)) zero_account).nonce ≡ (
        if b == a
        then add64 (get_or (lookup a m) zero_account).nonce 1
        else (get_or (lookup a m) zero_account).nonce)
count-nonce a b acc m same =
    let found = lookup-insert b a acc m in let e = eq_iff b a in ground arith

-- A citizen or governance transaction moves only its sender's nonce, and only where it succeeds.
pub citizen_tx-nonce :
    (a : Address) (tx : Tx) (tx_type : String) (s : State)
    → CountsNonce a tx s (apply_citizen_governance_tx tx tx_type s)
unfolding apply_citizen_governance_tx charge_fee
citizen_tx-nonce a tx tx_type s =
    let acted = (citizen_action tx tx_type s).1 in
    let settled = account_of tx.from acted in
    let kept = citizen_action-nonce a tx tx_type s in
    let charged =
      count-nonce a tx.from
        (record settled { balance = sub64 settled.balance tx.fee; nonce = add64 settled.nonce 1 })
        acted.accounts refl in
    elim (Result-cases (required_upfront tx tx_type)) [
      | inl (e, bad) ↦ ground (arith, bad)
      | inr (upfront, cost) ↦ elim (Result-cases (citizen_action tx tx_type s).0) [
        | inl (e, bad) ↦ ground (arith, cost, bad)
        | inr (u, fine) ↦ ground (arith, cost, fine)
      ]
    ]
