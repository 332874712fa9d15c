-- ===== src/Chain/Bridge.antt =====
-- core.go: the bridge records that a transfer leaves, and the check of a release. sha256 in hex,
-- ed25519.Verify and json.Unmarshal are the parameters `hash`, `verify` and `decode`.
pub mod Releases
mod Tests
use synthos_collective.Prelude.{
  ℕ, ◌+◌, ◌*◌, ◌/◌, Bool, true, false, not, ◌&&◌, ◌||◌, Option, none, some, get_or, List, [], ◌∷◌,
  length, ltb, if◌then◌else◌, ◌==◌, nat_eq, string_eq, String,
}
use synthos_collective.Words.{add64}
use synthos_collective.Text.{join, to_lower, trim_prefix, is_hex_bytes}
use synthos_collective.Text.Numbers.{format_uint}
use synthos_collective.Dict.{Dict, lookup, insert}
use synthos_collective.Chain.Errors.{BridgeError, bridge}
use synthos_collective.Chain.Types.{Address, BridgeRecord, State, Tx, metadata_value}
use synthos_collective.Chain.Monad.{
  Result, ok, err, Action, pure, raise, gets, lift, raise_if, modify, ◌>>=◌, ◌>>◌,
}

pub record BridgeValidatorSignature : Type 0 where
  pub validator_id : String
  pub signature : String

abbrev bar : String → String → String
bar s t = join s (join "|" t)

unfoldable pub release_payload : String → String → String → String → ℕ → String
unfolding format_uint to_lower
release_payload chain event recipient asset amount =
    bar "SYNTHOS_BRIDGE_NATIVE_RELEASE_V1"
      (bar chain (bar event (bar (to_lower recipient) (bar asset (format_uint amount)))))

unfoldable pub release_signing_message : String → String → String → String → ℕ → String
unfolding format_uint to_lower
release_signing_message chain event recipient asset amount =
    let named = if asset == "" then "syn" else asset in
    join "SYNTHOS_BRIDGE_RELEASE_V1\nsource_chain_id=" (
      join chain (
        join "\nsource_event_id=" (
          join event (
            join "\nrecipient=" (
              join (to_lower recipient)
                (join "\nasset_id=" (join named (join "\namount=" (format_uint amount)))))))))

abbrev pub asset_name : Tx → String
asset_name tx = if tx.asset_id == "" then "syn" else tx.asset_id

-- len(BridgeValidators) or more than two thirds of it
abbrev pub required_signatures : State → ℕ
required_signatures s =
    if s.bridge_quorum == 0 then (2 * length s.bridge_validators + 2) / 3 else s.bridge_quorum

-- The writes of the two kinds.
unfoldable pub record_lock : Tx → String → State → State
record_lock tx event s =
    let read = metadata_value tx.metadata in
    record s {
      bridge_events =
          insert event
            (record {
              id = event;
              kind = "bridge_lock_native";
              address = tx.from;
              recipient = tx.to;
              amount = tx.amount;
              asset_id = asset_name tx;
              source_chain_id = "";
              destination_chain_id = read "destination_chain_id";
              source_event_id = "";
              destination_recipient = read "destination_recipient";
              tx_id = tx.id;
              timestamp = tx.timestamp;
            })
            s.bridge_events;
      last_bridge_event_id = event;
    }

unfoldable pub record_release : Tx → String → State → State
record_release tx message_id s =
    let read = metadata_value tx.metadata in
    record s {
      processed_bridge_events = insert message_id true s.processed_bridge_events;
      bridge_events =
          insert message_id
            (record {
              id = message_id;
              kind = "bridge_release_native";
              address = tx.to;
              recipient = "";
              amount = tx.amount;
              asset_id = asset_name tx;
              source_chain_id = read "source_chain_id";
              destination_chain_id = "";
              source_event_id = read "source_event_id";
              destination_recipient = "";
              tx_id = tx.id;
              timestamp = tx.timestamp;
            })
            s.bridge_events;
      last_bridge_event_id = message_id;
    }

abbrev holds_event : Option BridgeRecord → Bool
holds_event none = false
holds_event (some _) = true

-- The case "bridge_lock_native".
unfoldable pub lock_native : Tx → Action State (Unit {0})
unfolding record_lock
lock_native tx = do
  let read = metadata_value tx.metadata
  raise_if (read "destination_chain_id" == "") (bridge BridgeError.missing_destination)
  raise_if (read "destination_recipient" == "") (bridge BridgeError.missing_destination)
  let event = if read "bridge_event_id" == "" then tx.id else read "bridge_event_id"
  found ← gets (λ s. lookup event s.bridge_events)
  raise_if (holds_event found) (bridge BridgeError.duplicate_event)
  modify (record_lock tx event)

module _ (hash : String → String) (verify : String → String → String → Bool)
    (decode : String → Option (List BridgeValidatorSignature)) where
  abbrev pub message_id : Tx → String
  message_id tx =
      let read = metadata_value tx.metadata in
      join "0x" (
        hash (
          release_payload (read "source_chain_id") (read "source_event_id") tx.to (asset_name tx)
            tx.amount))

  -- Whether an item of the loop counts.
  abbrev pub counts :
      Dict String String → String → Dict String Bool → BridgeValidatorSignature → Result Bool
  counts keys message seen item =
      if item.validator_id == "" || get_or (lookup item.validator_id seen) false
      then ok false
      else elim (lookup item.validator_id keys) [
        | none ↦ ok false
        | some pub_hex ↦
            let key = trim_prefix pub_hex "0x" in
            let sig = trim_prefix item.signature "0x" in
            if is_hex_bytes 32 key
            then ok (is_hex_bytes 64 sig && verify (to_lower key) message (to_lower sig))
            else err (bridge BridgeError.bad_key)
      ]

  -- The loop over the signatures: `seen` holds the validators that were counted.
  unfoldable pub count_valid :
      Dict String String → String → Dict String Bool → ℕ → List BridgeValidatorSignature → Result ℕ
  count_valid keys message seen valid [] = ok valid
  count_valid keys message seen valid (item ∷ rest) = elim (counts keys message seen item) [
    | err e ↦ err e
    | ok counted ↦
        count_valid keys message (if counted then insert item.validator_id true seen else seen)
          (if counted then add64 valid 1 else valid) rest
  ]

  -- verifyBridgeReleaseProofLocked
  unfoldable pub verify_release_proof : Tx → State → Result (Unit {0})
  unfolding count_valid
  verify_release_proof tx s =
      let read = metadata_value tx.metadata in
      let required = required_signatures s in
      let message =
        release_signing_message (read "source_chain_id") (read "source_event_id") tx.to
          (asset_name tx) tx.amount in
      if length s.bridge_validators == 0
      then err (bridge BridgeError.no_validators)
      else if read "validator_signatures" == ""
      then err (bridge BridgeError.missing_signatures)
      else elim (decode (read "validator_signatures")) [
        | none ↦ err (bridge BridgeError.bad_signatures)
        | some signatures ↦
            if required == 0 || ltb (length s.bridge_validators) required
            then err (bridge BridgeError.bad_quorum)
            else elim (count_valid s.bridge_validators message [] 0 signatures) [
              | err e ↦ err e
              | ok valid ↦
                  if ltb valid required then err (bridge BridgeError.quorum_not_met) else ok tt
            ]
      ]

  -- The case "bridge_release_native".
  unfoldable pub release_native : Tx → Action State (Unit {0})
  unfolding verify_release_proof record_release
  release_native tx = do
    let read = metadata_value tx.metadata
    raise_if (read "source_chain_id" == "") (bridge BridgeError.missing_source)
    raise_if (read "source_event_id" == "") (bridge BridgeError.missing_source)
    proof ← gets (verify_release_proof tx)
    lift proof
    processed ← gets (λ s. get_or (lookup (message_id tx) s.processed_bridge_events) false)
    raise_if processed (bridge BridgeError.already_processed)
    modify (record_release tx (message_id tx))

  unfoldable pub apply_bridge_metadata : Tx → Action State (Unit {0})
  unfolding lock_native release_native
  apply_bridge_metadata tx =
      let tx_type = metadata_value tx.metadata "type" in
      if tx_type == "bridge_lock_native"
      then lock_native tx
      else if tx_type == "bridge_release_native"
      then release_native tx
      else pure tt
