-- ===== src/Chain/Execution/Tests.antt =====
-- core.go's ApplyTx and abci_support.go's ApplyTransaction at concrete inputs.
use synthos_collective.Prelude.{◌≡◌, ◌≢◌, refl, [], ◌∷◌, arith, ℕ}
use synthos_collective.Words.{add64}
use synthos_collective.Dict.{lookup, insert}
use synthos_collective.Chain.Types.{new_state}
use synthos_collective.Chain.Monad.{ok}
use synthos_collective.Chain.Staking.{TxContext}
use synthos_collective.Chain.Execution.{apply_transaction}
use synthos_collective.Chain.Execution.Samples.{plain_crypto, payment, no_staking, purse}
use synthos_collective.Chain.Execution.Replay.{run, replay_refused}

abbrev block_at : ℕ → TxContext
block_at height = record { height = height; params = no_staking; chain_id = "test" }

first_runs : (apply_transaction plain_crypto (block_at 1) 0 (payment 0) purse).0 ≡ ok tt
unfolding apply_transaction new_state lookup insert add64
first_runs = refl

replay_refused_example :
    (apply_transaction plain_crypto (block_at 3) 0 (payment 0) (
      run plain_crypto
        ((block_at 2, (0, payment 1)) ∷ [])
        (apply_transaction plain_crypto (block_at 1) 0 (payment 0) purse).1)).0
    ≢ ok tt
replay_refused_example =
    replay_refused plain_crypto (block_at 1) (block_at 3) 0 0 (payment 0)
      ((block_at 2, (0, payment 1)) ∷ []) purse first_runs (omega arith)
