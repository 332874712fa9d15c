-- ===== src/Chain/Execution/Replay.antt =====
-- core.go and abci_support.go: a transaction that succeeded is not accepted again.
use synthos_collective.Prelude.{
  ℕ, ◌+◌, ◌≡◌, ◌≢◌, ◌<◌, ◌≤◌, inl, inr, arith, true, string_eq, nat_eq, eq_iff, Bool-cases, ◌==◌,
  ◌&&◌, ltb, List, [], ◌∷◌, length, String, Bool,
}
use synthos_collective.Words.{u64_mod, add64}
use synthos_collective.Chain.Types.{Address, State, Tx, metadata_value}
use synthos_collective.Chain.Monad.{Result, ok, err, Result-cases}
use synthos_collective.Chain.Ledger.{transfer, apply_citizen_governance_tx}
use synthos_collective.Chain.Exchange.Dispatch.{apply_dex_tx}
use synthos_collective.Chain.Staking.{TxContext, apply_staking_tx}
use synthos_collective.Chain.Staking.Params.{enabled_at}
use synthos_collective.Chain.Staking.Evidence.{apply_validator_evidence, apply_validator_tx_ctx}
use synthos_collective.Chain.Execution.{
  Crypto, is_citizen_governance_type, is_dex_type, is_validator_type, is_fee_model_v2, required_fee,
  verify_tx, apply_transfer, dispatch, apply_tx, apply_transaction, apply_validator_tx, at_time,
}
use synthos_collective.Chain.Execution.Actions.{nonce_of, CountsNonce}
use synthos_collective.Chain.Execution.Nonces.{apply_transaction-nonce}

-- An outcome that is a success only where the transaction carries its sender's nonce.
abbrev IsDue : Tx → State → Result (Unit {0}) × State → Type 0
IsDue tx s (ok _, _) = tx.nonce ≡ nonce_of tx.from s
IsDue tx s (err _, _) = Unit

due_nonce :
    (tx : Tx) (s : State) (r : Result (Unit {0}) × State)
    → IsDue tx s r
    → r.0 ≡ ok tt
    → tx.nonce ≡ nonce_of tx.from s
due_nonce tx s (ok _, _) due h = due
due_nonce tx s (err e, _) due h = ground arith

module _ (tx : Tx) (s : State) where
  in_turn : (tx.nonce == nonce_of tx.from s) ≡ true → (r : Result (Unit {0}) × State) → IsDue tx s r
  in_turn fine (ok _, _) = ground arith
  in_turn fine (err e, _) = tt

  citizen_tx-IsDue : (tx_type : String) → IsDue tx s (apply_citizen_governance_tx tx tx_type s)
  unfolding apply_citizen_governance_tx
  citizen_tx-IsDue tx_type = elim (Bool-cases (tx.nonce == nonce_of tx.from s)) [
    | inl fine ↦ in_turn fine _
    | inr bad ↦ rw bad tt
  ]

  dex_tx-IsDue : (tx_type : String) → IsDue tx s (apply_dex_tx tx tx_type s)
  unfolding apply_dex_tx
  dex_tx-IsDue tx_type = elim (Bool-cases (tx.nonce == nonce_of tx.from s)) [
    | inl fine ↦ in_turn fine _
    | inr bad ↦ rw bad tt
  ]

  transfer-IsDue : (crypto : Crypto) → IsDue tx s (apply_transfer crypto tx s)
  unfolding apply_transfer transfer
  transfer-IsDue crypto = elim (Bool-cases (tx.nonce == nonce_of tx.from s)) [
    | inl fine ↦ in_turn fine _
    | inr bad ↦ rw bad tt
  ]

  validator_tx-IsDue :
      (verify : String → String → String → Bool) (tx_type : String) (ctx : TxContext)
      → IsDue tx s (apply_validator_tx_ctx verify tx_type ctx tx s)
  unfolding apply_validator_tx_ctx apply_validator_evidence apply_staking_tx
  validator_tx-IsDue verify tx_type ctx = elim (Bool-cases (tx.nonce == nonce_of tx.from s)) [
    | inl fine ↦ in_turn fine _
    | inr bad ↦ ground (arith, bad)
  ]

module _ (crypto : Crypto) where
  dispatch-IsDue : (tx : Tx) (s : State) → IsDue tx s (dispatch crypto tx s)
  unfolding dispatch
  dispatch-IsDue tx s =
      let tx_type = metadata_value tx.metadata "type" in
      elim (Bool-cases (is_citizen_governance_type tx_type)) [
        | inl h ↦ rw h (citizen_tx-IsDue tx s tx_type)
        | inr h ↦ elim (Bool-cases (is_dex_type tx_type)) [
          | inl k ↦ rw (h, k) (dex_tx-IsDue tx s tx_type)
          | inr k ↦ rw (h, k) (transfer-IsDue tx s crypto)
        ]
      ]

  apply_tx-IsDue : (tx : Tx) (s : State) → IsDue tx s (apply_tx crypto tx s)
  unfolding apply_tx
  apply_tx-IsDue tx s = elim (Result-cases (verify_tx crypto tx)) [
    | inl (e, bad) ↦ rw bad tt
    | inr (u, fine) ↦ rw fine (dispatch-IsDue tx s)
  ]

  validator-IsDue :
      (ctx : TxContext) (tx : Tx) (s : State) → IsDue tx s (apply_validator_tx crypto ctx tx s)
  unfolding apply_validator_tx
  validator-IsDue ctx tx s = elim (Result-cases (verify_tx crypto tx)) [
    | inl (e, bad) ↦ rw bad tt
    | inr (u, fine) ↦
        rw fine (validator_tx-IsDue tx s crypto.verify (metadata_value tx.metadata "type") ctx)
  ]

  apply_transaction-IsDue :
      (ctx : TxContext) (block_time : ℕ) (tx : Tx) (s : State)
      → IsDue tx s (apply_transaction crypto ctx block_time tx s)
  unfolding apply_transaction
  apply_transaction-IsDue ctx block_time tx s =
      let timed = at_time block_time tx in
      elim (Bool-cases (is_fee_model_v2 ctx.height && ltb tx.fee (required_fee tx))) [
        | inl h ↦ rw h tt
        | inr h ↦
            elim (Bool-cases (
              is_validator_type (metadata_value tx.metadata "type")
              && enabled_at ctx.params ctx.height)) [
                | inl k ↦ rw (h, k) (validator-IsDue ctx timed s)
                | inr k ↦ rw (h, k) (apply_tx-IsDue timed s)
              ]
      ]

  -- Transactions, each with its block's context and time. One that fails leaves what it wrote.
  abbrev pub run : List (TxContext × (ℕ × Tx)) → State → State
  run [] s = s
  run ((ctx, (block_time, tx)) ∷ later) s =
      run later (apply_transaction crypto ctx block_time tx s).1

  counted :
      (a : Address) (tx : Tx) (s : State) (r : Result (Unit {0}) × State)
      → CountsNonce a tx s r
      → nonce_of a s + 1 < u64_mod
      → (nonce_of a s ≤ nonce_of a r.1) × (nonce_of a r.1 ≤ nonce_of a s + 1)
  unfolding add64
  counted a tx s (ok _, s') h small = ground arith
  counted a tx s (err e, s') h small = ground arith

  run-nonce :
      (a : Address) (later : List (TxContext × (ℕ × Tx))) (s : State)
      → nonce_of a s + length later < u64_mod
      → nonce_of a s ≤ nonce_of a (run later s)
  run-nonce a [] s small = omega arith
  run-nonce a ((ctx, (block_time, tx)) ∷ later) s small =
      let r = apply_transaction crypto ctx block_time tx s in
      let (up, near) =
        counted a tx s r (apply_transaction-nonce crypto a ctx block_time tx s) (omega arith) in
      let rest = run-nonce a later r.1 (omega arith) in omega arith

  accepted-nonce :
      (tx : Tx) (s : State) (r : Result (Unit {0}) × State)
      → CountsNonce tx.from tx s r
      → r.0 ≡ ok tt
      → nonce_of tx.from r.1 ≡ add64 (nonce_of tx.from s) 1
  accepted-nonce tx s (ok _, s') h fine = ground (arith, eq_iff tx.from tx.from)
  accepted-nonce tx s (err e, s') h fine = ground arith

  -- After a transaction that succeeded in any block, and after any number of transactions that the
  -- sender's nonce can count up by without wrapping, the same transaction does not succeed in any
  -- block.
  pub replay_refused :
      (ctx ctx' : TxContext) (time time' : ℕ) (tx : Tx) (between : List (TxContext × (ℕ × Tx)))
      (s : State)
      → (apply_transaction crypto ctx time tx s).0 ≡ ok tt
      → tx.nonce + 1 + length between < u64_mod
      → (apply_transaction crypto ctx' time' tx
          (run between (apply_transaction crypto ctx time tx s).1)).0
        ≢ ok tt
  unfolding add64
  replay_refused ctx ctx' time time' tx between s paid small =
      let first = apply_transaction crypto ctx time tx s in
      let due = due_nonce tx s first (apply_transaction-IsDue ctx time tx s) paid in
      let next =
        accepted-nonce tx s first (apply_transaction-nonce crypto tx.from ctx time tx s) paid in
      let up = run-nonce tx.from between first.1 (omega arith) in
      λ again.
        let then_ = run between first.1 in
        let due' =
          due_nonce tx then_ (apply_transaction crypto ctx' time' tx then_)
            (apply_transaction-IsDue ctx' time' tx then_) again in
        omega arith
