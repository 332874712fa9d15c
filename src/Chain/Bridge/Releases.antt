-- ===== src/Chain/Bridge/Releases.antt =====
-- core.go: a source event is released once.
use synthos_collective.Prelude.{
  ◌≡◌, ◌≢◌, true, Bool, List, [], ◌∷◌, arith, String, string_eq, some, Option,
}
use synthos_collective.Dict.{lookup, lookup-insert, lookup-insert_self}
use synthos_collective.Chain.Types.{State, Tx}
use synthos_collective.Chain.Monad.{ok}
use synthos_collective.Chain.Bridge.{
  BridgeValidatorSignature, message_id, lock_native, release_native, record_lock, record_release,
  apply_bridge_metadata,
}

module _ (hash : String → String) (verify : String → String → String → Bool)
    (decode : String → Option (List BridgeValidatorSignature)) where
  abbrev pub step : Tx → State → State
  step tx s = (apply_bridge_metadata hash verify decode tx s).1

  abbrev pub steps : List Tx → State → State
  steps [] s = s
  steps (tx ∷ txs) s = steps txs (step tx s)

  -- What was processed stays processed.
  step-processed :
      (id : String) (tx : Tx) (s : State)
      → lookup id s.processed_bridge_events ≡ some true
      → lookup id (step tx s).processed_bridge_events ≡ some true
  unfolding apply_bridge_metadata lock_native release_native record_lock record_release
  step-processed id tx s h =
      let mine = message_id hash verify decode tx in
      ground (arith, lookup-insert mine id true s.processed_bridge_events)

  steps-processed :
      (id : String) (txs : List Tx) (s : State)
      → lookup id s.processed_bridge_events ≡ some true
      → lookup id (steps txs s).processed_bridge_events ≡ some true
  steps-processed id [] s h = h
  steps-processed id (tx ∷ txs) s h = steps-processed id txs (step tx s) (step-processed id tx s h)

  release-processed :
      (tx : Tx) (s : State)
      → (release_native hash verify decode tx s).0 ≡ ok tt
      → lookup
          (message_id hash verify decode tx)
          (release_native hash verify decode tx s).1.processed_bridge_events
        ≡ some true
  unfolding release_native record_release
  release-processed tx s h =
      let mine = message_id hash verify decode tx in
      ground (arith, lookup-insert_self mine true s.processed_bridge_events)

  -- After a release that succeeded, and after any bridge transactions in between, a release with
  -- the same message id, which is the hash of its source chain, source event, recipient, asset and
  -- amount, does not succeed.
  pub released_once :
      (first second : Tx) (between : List Tx) (s : State)
      → (release_native hash verify decode first s).0 ≡ ok tt
      → message_id hash verify decode second ≡ message_id hash verify decode first
      → (release_native hash verify decode second
          (steps between (release_native hash verify decode first s).1)).0
        ≢ ok tt
  unfolding release_native
  released_once first second between s paid same =
      let mine = message_id hash verify decode first in
      let after = (release_native hash verify decode first s).1 in
      let marked = steps-processed mine between after (release-processed first s paid) in
      λ again. ground (arith, marked, same)
