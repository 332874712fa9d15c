-- ===== src/Chain/Bridge/Tests.antt =====
-- core.go: the bridge at concrete inputs.
use synthos_collective.Prelude.{◌≡◌, ◌≢◌, refl, true, Bool, List, [], ◌∷◌, String, some, Option}
use synthos_collective.Words.{add64}
use synthos_collective.Text.{join, trim_prefix, is_hex_bytes}
use synthos_collective.Dict.{lookup, insert}
use synthos_collective.Chain.Types.{State, Tx, new_state}
use synthos_collective.Chain.Monad.{ok}
use synthos_collective.Chain.Bridge.{BridgeValidatorSignature, release_native}
use synthos_collective.Chain.Bridge.Releases.{steps, released_once}

abbrev same_text : String → String
same_text s = s

abbrev any_signature : String → String → String → Bool
any_signature key message signature = true

abbrev zeros : String
zeros = "0000000000000000000000000000000000000000000000000000000000000000"

abbrev one_signer : String → Option (List BridgeValidatorSignature)
one_signer raw = some (record { validator_id = "v"; signature = join zeros zeros } ∷ [])

abbrev release : Tx
release = record {
  id = "t";
  chain_id = 1;
  from = "relayer";
  to = "Bob";
  amount = 70;
  fee = 1;
  nonce = 0;
  public_key = "";
  signature = "";
  asset_id = "";
  metadata =
      record { key = "type"; value = "bridge_release_native" }
      ∷ record { key = "source_chain_id"; value = "other" }
      ∷ record { key = "source_event_id"; value = "e1" }
      ∷ record { key = "validator_signatures"; value = "[...]" }
      ∷ [];
  timestamp = 0;
}

abbrev bridged : State
unfolding new_state
bridged = record new_state { bridge_validators = ("v", zeros) ∷ []; bridge_quorum = 1 }

first_release : (release_native same_text any_signature one_signer release bridged).0 ≡ ok tt
unfolding release_native new_state lookup insert add64 trim_prefix is_hex_bytes
first_release = refl

released_once_example :
    (release_native same_text any_signature one_signer release (
      steps same_text any_signature one_signer []
        (release_native same_text any_signature one_signer release bridged).1)).0
    ≢ ok tt
released_once_example =
    released_once same_text any_signature one_signer release release [] bridged first_release refl
