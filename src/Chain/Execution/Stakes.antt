-- ===== src/Chain/Execution/Stakes.antt =====
-- validator_staking.go: the nonces after a validator transaction.
use synthos_collective.Prelude.{
  ◌-◌, ◌/◌, ◌≡◌, Bool, refl, inl, inr, none, some, get_or, arith, string_eq, nat_eq, String, Option,
}
use synthos_collective.Words.{add64, mul64}
use synthos_collective.Dict.{lookup}
use synthos_collective.Chain.Errors.{StakingError, staking}
use synthos_collective.Chain.Types.{
  Address, Account, ValidatorRecord, State, Tx, account_of, metadata_value,
}
use synthos_collective.Chain.Monad.{Result, ok, err, Result-cases}
use synthos_collective.Chain.SafeMath.{safe_add}
use synthos_collective.Chain.Staking.{
  TxContext, Settled, checked_add, bond_record, collect_matured, bond, unbond, withdraw, step_of,
  settle, apply_staking_tx, new_record,
}
use synthos_collective.Chain.Staking.Keys.{operator_for_key}
use synthos_collective.Chain.Staking.Evidence.{
  apply_validator_evidence, apply_validator_tx_ctx, check_evidence, slash_and_tombstone, punish,
}
use synthos_collective.Chain.Execution.Actions.{CountsNonce, count-nonce}

-- A step writes nothing itself and keeps the nonce of the account it returns.
abbrev Quiet : Account → State → Result Settled × State → Type 0
Quiet acc s (ok (acc', rec'), s') = (s' ≡ s) × (acc'.nonce ≡ acc.nonce)
Quiet acc s (err _, s') = s' ≡ s

module _ (ctx : TxContext) (tx : Tx) (acc : Account) where
  bond-Quiet : (found : Option ValidatorRecord) (s : State) → Quiet acc s (bond ctx tx acc found s)
  unfolding bond checked_add safe_add
  bond-Quiet found s =
      let key = metadata_value tx.metadata "consensus_pub_key" in
      elim (Result-cases (bond_record tx.from key ctx.height found s.validators)) [
        | inl (e, bad) ↦ ground arith
        | inr (rec, good) ↦ ground arith
      ]

  unbond-Quiet :
      (found : Option ValidatorRecord) (s : State) → Quiet acc s (unbond ctx tx acc found s)
  unfolding unbond checked_add safe_add
  unbond-Quiet none s = ground arith
  unbond-Quiet (some rec) s = ground arith

  withdraw-Quiet :
      (found : Option ValidatorRecord) (s : State) → Quiet acc s (withdraw ctx tx acc found s)
  unfolding withdraw checked_add safe_add
  withdraw-Quiet none s = ground arith
  withdraw-Quiet (some rec) s = elim (Result-cases (collect_matured ctx.height 0 rec.unbonding)) [
    | inl (e, bad) ↦ ground arith
    | inr ((sum, pending), good) ↦ ground arith
  ]

  step_of-Quiet :
      (tx_type : String) (found : Option ValidatorRecord) (s : State)
      → Quiet acc s (step_of tx_type ctx tx acc found s)
  unfolding step_of
  step_of-Quiet tx_type found s =
      ground (arith, bond-Quiet found s, unbond-Quiet found s, withdraw-Quiet found s)

module _ (a : Address) (ctx : TxContext) (tx : Tx) (s : State) where
  staking_tx-nonce : (tx_type : String) → CountsNonce a tx s (apply_staking_tx tx_type ctx tx s)
  unfolding apply_staking_tx settle
  staking_tx-nonce tx_type =
      let acc = account_of tx.from s in
      let found = lookup tx.from s.validators in
      let quiet = step_of-Quiet ctx tx acc tx_type found s in
      elim (Result-cases (step_of tx_type ctx tx acc found s).0) [
        | inl (e, bad) ↦ ground arith
        | inr ((acc', rec'), good) ↦
            let stored : Account = record acc' { nonce = add64 acc'.nonce 1 } in
            let kept : acc'.nonce ≡ acc.nonce = ground arith in
            let counted = count-nonce a tx.from stored s.accounts (rw kept refl) in ground arith
      ]

  evidence-nonce :
      (verify : String → String → String → Bool)
      → CountsNonce a tx s (apply_validator_evidence verify ctx tx s)
  unfolding apply_validator_evidence punish
  evidence-nonce verify =
      let reporter = account_of tx.from s in
      elim (Result-cases (check_evidence verify ctx tx)) [
        | inl (e, bad) ↦ ground (arith, bad)
        | inr (key, fine) ↦
            let operator = operator_for_key key s.validators in
            let offender = get_or (lookup operator s.validators) (new_record "" "" 0) in
            let slashed = (slash_and_tombstone offender ctx.params.slash_fraction_bps).1 in
            let reward = mul64 slashed ctx.params.reporter_reward_bps / 10_000 in
            elim (Result-cases
              (checked_add reporter.balance reward (staking StakingError.balance_overflow))) [
                | inl (e, bad) ↦ ground (arith, fine, bad)
                | inr (credited, paid) ↦
                    let stored : Account = record reporter {
                      balance = credited - tx.fee;
                      nonce = add64 reporter.nonce 1;
                    } in
                    let counted = count-nonce a tx.from stored s.accounts refl in
                    ground (arith, fine, paid)
              ]
      ]

  -- A validator transaction moves only its sender's nonce, and only where it succeeds.
  pub validator_tx-nonce :
      (verify : String → String → String → Bool) (tx_type : String)
      → CountsNonce a tx s (apply_validator_tx_ctx verify tx_type ctx tx s)
  unfolding apply_validator_tx_ctx
  validator_tx-nonce verify tx_type =
      let reported = evidence-nonce verify in let staked = staking_tx-nonce tx_type in ground arith
