-- ===== src/Chain/Execution/Nonces.antt =====
-- core.go and abci_support.go: every transaction moves its sender's nonce by one and no other, and
-- none where it fails.
use synthos_collective.Prelude.{
  ℕ, ◌≡◌, refl, ◌∙◌, inl, inr, arith, string_eq, nat_eq, Bool-cases, if◌then◌else◌, ◌==◌, ◌&&◌, ltb,
}
use synthos_collective.Words.{add64}
use synthos_collective.Dict.{insert}
use synthos_collective.Chain.Types.{Address, Account, State, Tx, account_of, metadata_value}
use synthos_collective.Chain.SafeMath.{safe_add}
use synthos_collective.Chain.Ledger.Transfers.{transfer_parts}
use synthos_collective.Chain.Monad.{ok, Result-cases}
use synthos_collective.Chain.Ledger.{debit, credit, transfer, settle_transfer}
use synthos_collective.Chain.Immune.{
  apply_immune_metadata, activate_node, submit_proof, record_proof,
}
use synthos_collective.Chain.Bridge.{
  apply_bridge_metadata, lock_native, release_native, record_lock, record_release,
}
use synthos_collective.Chain.Staking.{TxContext}
use synthos_collective.Chain.Staking.Params.{enabled_at}
use synthos_collective.Chain.Execution.{
  Crypto, is_citizen_governance_type, is_dex_type, is_validator_type, is_fee_model_v2, required_fee,
  verify_tx, apply_transfer, dispatch, apply_tx, apply_transaction, apply_validator_tx, at_time,
}
use synthos_collective.Chain.Execution.Actions.{
  nonce_of, CountsNonce, write-nonce, count-nonce, citizen_tx-nonce,
}
use synthos_collective.Chain.Execution.Stakes.{validator_tx-nonce}
use synthos_collective.Chain.Execution.Trades.{dex_tx-nonce}

debit-nonce :
    (tx : Tx) (from sender : Account)
    → debit tx from ≡ ok sender
    → sender.nonce ≡ add64 from.nonce 1
unfolding debit safe_add
debit-nonce tx from sender h = ground arith

credit-nonce :
    (tx : Tx) (to recipient : Account) → credit tx to ≡ ok recipient → recipient.nonce ≡ to.nonce
unfolding credit safe_add
credit-nonce tx to recipient h = ground arith

settle_transfer-nonce :
    (a : Address) (tx : Tx) (s later : State) (sender recipient : Account)
    → transfer tx s ≡ ok (sender, recipient)
    → later.accounts ≡ s.accounts
    → nonce_of a (settle_transfer tx (sender, recipient) later)
      ≡ (if tx.from == a then add64 (nonce_of a s) 1 else nonce_of a s)
unfolding settle_transfer
settle_transfer-nonce a tx s later sender recipient h same_accounts =
    let (out, got) = transfer_parts tx s sender recipient h in
    let paid = insert tx.to recipient s.accounts in
    let same = credit-nonce tx (account_of tx.to s) recipient got in
    let kept = write-nonce a tx.to recipient s.accounts same in
    let mine = write-nonce tx.from tx.to recipient s.accounts same in
    let more = debit-nonce tx (account_of tx.from s) sender out in
    let counted = count-nonce a tx.from sender paid (rw mine more) in
    rw (same_accounts, counted, kept) refl

immune-accounts : (tx : Tx) (s : State) → (apply_immune_metadata tx s).1.accounts ≡ s.accounts
unfolding apply_immune_metadata activate_node submit_proof record_proof
immune-accounts tx s = ground arith

module _ (crypto : Crypto) where
  bridge-accounts :
      (tx : Tx) (s : State)
      → (apply_bridge_metadata crypto.sha256 crypto.verify crypto.decode_signatures tx s).1.accounts
        ≡ s.accounts
  unfolding apply_bridge_metadata lock_native release_native record_lock record_release
  bridge-accounts tx s = ground arith

  transfer-nonce :
      (a : Address) (tx : Tx) (s : State) → CountsNonce a tx s (apply_transfer crypto tx s)
  unfolding apply_transfer
  transfer-nonce a tx s =
      let after = (apply_immune_metadata tx s).1 in
      let bridged =
        apply_bridge_metadata crypto.sha256 crypto.verify crypto.decode_signatures tx after in
      elim (Result-cases (transfer tx s)) [
        | inl (e, bad) ↦ rw bad refl
        | inr ((sender, recipient), moved) ↦ elim (Result-cases (apply_immune_metadata tx s).0) [
          | inl (e, bad) ↦ let kept = immune-accounts tx s in ground (arith, moved, bad)
          | inr (u, fine) ↦ elim (Result-cases bridged.0) [
            | inl (e, bad) ↦
                let kept = bridge-accounts tx after ∙ immune-accounts tx s in
                ground (arith, moved, fine, bad)
            | inr (v, good) ↦
                let done =
                  settle_transfer-nonce a tx s bridged.1 sender recipient moved
                    (bridge-accounts tx after ∙ immune-accounts tx s) in
                ground (arith, moved, fine, good)
          ]
        ]
      ]

  dispatch-nonce : (a : Address) (tx : Tx) (s : State) → CountsNonce a tx s (dispatch crypto tx s)
  unfolding dispatch
  dispatch-nonce a tx s =
      let tx_type = metadata_value tx.metadata "type" in
      elim (Bool-cases (is_citizen_governance_type tx_type)) [
        | inl h ↦ rw h (citizen_tx-nonce a tx tx_type s)
        | inr h ↦ elim (Bool-cases (is_dex_type tx_type)) [
          | inl k ↦ rw (h, k) (dex_tx-nonce a tx s tx_type)
          | inr k ↦ rw (h, k) (transfer-nonce a tx s)
        ]
      ]

  apply_tx-nonce : (a : Address) (tx : Tx) (s : State) → CountsNonce a tx s (apply_tx crypto tx s)
  unfolding apply_tx
  apply_tx-nonce a tx s = elim (Result-cases (verify_tx crypto tx)) [
    | inl (e, bad) ↦ rw bad refl
    | inr (u, fine) ↦ rw fine (dispatch-nonce a tx s)
  ]

  validator-nonce :
      (a : Address) (ctx : TxContext) (tx : Tx) (s : State)
      → CountsNonce a tx s (apply_validator_tx crypto ctx tx s)
  unfolding apply_validator_tx
  validator-nonce a ctx tx s = elim (Result-cases (verify_tx crypto tx)) [
    | inl (e, bad) ↦ rw bad refl
    | inr (u, fine) ↦
        rw fine (validator_tx-nonce a ctx tx s crypto.verify (metadata_value tx.metadata "type"))
  ]

  -- A transaction that succeeds moves its sender's nonce up by one, modulo 2^64, and no other
  -- nonce; one that fails moves none.
  pub apply_transaction-nonce :
      (a : Address) (ctx : TxContext) (block_time : ℕ) (tx : Tx) (s : State)
      → CountsNonce a tx s (apply_transaction crypto ctx block_time tx s)
  unfolding apply_transaction
  apply_transaction-nonce a ctx block_time tx s =
      let timed = at_time block_time tx in
      elim (Bool-cases (is_fee_model_v2 ctx.height && ltb tx.fee (required_fee tx))) [
        | inl h ↦ rw h refl
        | inr h ↦
            elim (Bool-cases (
              is_validator_type (metadata_value tx.metadata "type")
              && enabled_at ctx.params ctx.height)) [
                | inl k ↦ rw (h, k) (validator-nonce a ctx timed s)
                | inr k ↦ rw (h, k) (apply_tx-nonce a timed s)
              ]
      ]
