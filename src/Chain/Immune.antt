-- ===== src/Chain/Immune.antt =====
-- core.go: the immune-node records that a transfer leaves, the local ones, Slash, and the counts
-- that the status reports show.
mod Tests
use synthos_collective.Prelude.{
  ℕ, ◌+◌, ◌-◌, ◌/◌, Bool, true, false, not, ◌&&◌, ◌||◌, Option, none, some, get_or, List, [], ◌∷◌,
  length, ltb, if◌then◌else◌, ◌==◌, nat_eq, string_eq, String,
}
use synthos_collective.Words.{add64, mul64}
use synthos_collective.Dict.{Dict, lookup, insert}
use synthos_collective.Chain.Errors.{CoreError, core}
use synthos_collective.Chain.Types.{
  Address, BridgeRecord, ImmuneNodeRecord, SovereignProofRecord, State, Tx, metadata_value,
  set_account, account_of,
}
use synthos_collective.Chain.Monad.{Action, pure, raise, gets, raise_if, modify, ◌>>=◌, ◌>>◌}

abbrev pub no_node : ImmuneNodeRecord
no_node = record {
  address = "";
  hardware_hash = "";
  activated_at = 0;
  last_proof_at = 0;
  sovereign_proofs = 0;
  opt_in_local_only = false;
  cryptographic_mode = "";
}

-- s.ImmuneNodes[a]
abbrev pub node_of : Address → State → ImmuneNodeRecord
node_of a s = get_or (lookup a s.immune_nodes) no_node

abbrev pub set_node : Address → ImmuneNodeRecord → State → State
set_node a node s = record s { immune_nodes = insert a node s.immune_nodes }

-- The record after an activation: what a first one sets stays.
unfoldable pub activated : Tx → ImmuneNodeRecord → ImmuneNodeRecord
activated tx node =
    let read = metadata_value tx.metadata in
    let opened =
      if node.address == ""
      then record node {
        address = tx.from;
        activated_at = tx.timestamp;
        cryptographic_mode = "absolute_silence";
      }
      else node in
    record opened {
      hardware_hash = read "hardware_hash";
      opt_in_local_only = not (read "scope" == "external");
    }

-- The case "immune_node_activate".
unfoldable pub activate_node : Tx → Action State (Unit {0})
unfolding activated
activate_node tx = do
  raise_if (metadata_value tx.metadata "hardware_hash" == "") (core CoreError.missing_field)
  node ← gets (node_of tx.from)
  modify (set_node tx.from (activated tx node))

unfoldable pub proof_scope : Tx → String
proof_scope tx =
    let scope = metadata_value tx.metadata "scope" in if scope == "" then "local_opt_in" else scope

abbrev pub is_local_scope : String → Bool
is_local_scope scope = scope == "local_opt_in" || (scope == "local_browser" || scope == "testnet")

-- The writes of a proof.
unfoldable pub record_proof : Tx → ImmuneNodeRecord → State → State
unfolding proof_scope
record_proof tx node s =
    let read = metadata_value tx.metadata in
    record s {
      immune_nodes =
          insert tx.from
            (record node {
              sovereign_proofs = add64 node.sovereign_proofs 1;
              last_proof_at = tx.timestamp;
            })
            s.immune_nodes;
      sovereign_proofs =
          insert tx.id
            (record {
              id = tx.id;
              address = tx.from;
              proof_hash = read "proof_hash";
              noise_class = read "noise_class";
              declared_scope = proof_scope tx;
              timestamp = tx.timestamp;
            })
            s.sovereign_proofs;
      last_sovereign_proof_id = tx.id;
    }

-- The case "sovereign_noise_proof".
unfoldable pub submit_proof : Tx → Action State (Unit {0})
unfolding proof_scope record_proof
submit_proof tx = do
  raise_if (metadata_value tx.metadata "proof_hash" == "") (core CoreError.missing_field)
  raise_if (not (is_local_scope (proof_scope tx))) (core CoreError.bad_scope)
  node ← gets (node_of tx.from)
  raise_if (node.address == "") (core CoreError.node_not_active)
  modify (record_proof tx node)

unfoldable pub apply_immune_metadata : Tx → Action State (Unit {0})
unfolding activate_node submit_proof
apply_immune_metadata tx =
    let tx_type = metadata_value tx.metadata "type" in
    if tx_type == "immune_node_activate"
    then activate_node tx
    else if tx_type == "sovereign_noise_proof"
    then submit_proof tx
    else pure tt

-- EnsureImmuneNode: whether it created the record
unfoldable pub ensure_immune_node : Address → String → ℕ → State → Bool × State
ensure_immune_node address hardware_hash at s =
    if address == "" || hardware_hash == ""
    then (false, s)
    else elim (lookup address s.immune_nodes) [
      | some _ ↦ (false, s)
      | none ↦ (
        true,
        set_node address
            (record no_node {
              address = address;
              hardware_hash = hardware_hash;
              activated_at = at;
              opt_in_local_only = true;
              cryptographic_mode = "absolute_silence";
            })
            s,
      )
    ]

-- Slash. The percentage is an int, by its bit pattern.
unfoldable pub slash : Address → ℕ → State → State
slash a penalty_percent s = elim (lookup a s.accounts) [
  | none ↦ s
  | some acc ↦
      let fine = mul64 acc.balance penalty_percent / 100 in
      set_account a
        (record acc { balance = if ltb acc.balance fine then 0 else acc.balance - fine }) s
]

-- ImmuneStatus, less its two constants: the nodes, the proofs and the last proof's hash
unfoldable pub immune_status : State → ℕ × (ℕ × String)
immune_status s =
    let last : String = elim (lookup s.last_sovereign_proof_id s.sovereign_proofs) [
      | none ↦ ""
      | some proof ↦ proof.proof_hash
    ] in
    (
      length s.immune_nodes,
      (length s.sovereign_proofs, if s.last_sovereign_proof_id == "" then "" else last),
    )

-- The loop of BridgeStatus.
unfoldable pub count_kind : String → Dict String BridgeRecord → ℕ
count_kind kind [] = 0
count_kind kind ((_, event) ∷ rest) =
    let others = count_kind kind rest in if event.kind == kind then 1 + others else others

-- BridgeStatus: locks, releases, processed messages and the last event
unfoldable pub bridge_status : State → (ℕ × ℕ) × (ℕ × String)
unfolding count_kind
bridge_status s = (
  (
    count_kind "bridge_lock_native" s.bridge_events,
    count_kind "bridge_release_native" s.bridge_events,
  ),
  (length s.processed_bridge_events, s.last_bridge_event_id),
)
