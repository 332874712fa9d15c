-- ===== src/Chain/Types.antt =====
-- The data of internal/chain: transactions, accounts, the records of each subsystem and the State
-- that consensus replicates (core.go, citizen.go, governance.go, dex.go, validator_staking.go).
use synthos_collective.Prelude.{
  ◌∷◌, if◌then◌else◌, ◌==◌, ℕ, String, string_eq, Bool, List, [], get_or,
}
use synthos_collective.Dict.{Dict, lookup, insert}

abbrev pub Address : Type 0
Address = String

pub record KeyValuePair : Type 0 where
  pub key : String
  pub value : String

pub record Tx : Type 0 where
  pub id : String
  pub chain_id : ℕ
  pub from : Address
  pub to : Address
  pub amount : ℕ
  pub fee : ℕ
  pub nonce : ℕ
  pub public_key : String
  pub signature : String
  pub asset_id : String
  pub metadata : List KeyValuePair
  pub timestamp : ℕ  -- int64

pub record Account : Type 0 where
  pub balance : ℕ
  pub assets : Dict String ℕ
  pub nonce : ℕ

pub record ImmuneNodeRecord : Type 0 where
  pub address : Address
  pub hardware_hash : String
  pub activated_at : ℕ
  pub last_proof_at : ℕ
  pub sovereign_proofs : ℕ
  pub opt_in_local_only : Bool
  pub cryptographic_mode : String

pub record SovereignProofRecord : Type 0 where
  pub id : String
  pub address : Address
  pub proof_hash : String
  pub noise_class : String
  pub declared_scope : String
  pub timestamp : ℕ

pub record BridgeRecord : Type 0 where
  pub id : String
  pub kind : String  -- Type
  pub address : Address
  pub recipient : Address
  pub amount : ℕ
  pub asset_id : String
  pub source_chain_id : String
  pub destination_chain_id : String
  pub source_event_id : String
  pub destination_recipient : String
  pub tx_id : String
  pub timestamp : ℕ

pub record CitizenStake : Type 0 where
  pub amount : ℕ
  pub staked_at : ℕ  -- int64
  pub last_claim_at : ℕ  -- int64

pub record Proposal : Type 0 where
  pub id : String
  pub description : String
  pub amount : ℕ
  pub recipient : Address
  pub votes_for : ℕ
  pub votes_against : ℕ
  pub is_active : Bool
  pub executed : Bool
  pub voters : Dict Address Bool

pub record Pool : Type 0 where
  pub asset_id : String
  pub syn_reserve : ℕ
  pub asset_reserve : ℕ
  pub total_shares : ℕ
  pub shares : Dict Address ℕ

pub record UnbondingEntry : Type 0 where
  pub amount : ℕ
  pub complete_at_height : ℕ

pub record ValidatorRecord : Type 0 where
  pub operator : Address
  pub consensus_pub_key : String
  pub moniker : String
  pub endpoint : String
  pub self_bond : ℕ
  pub first_bond_height : ℕ
  pub unbonding : List UnbondingEntry
  pub tombstoned : Bool

pub record ActiveValidator : Type 0 where
  pub operator : Address
  pub consensus_pub_key : String
  pub moniker : String
  pub endpoint : String
  pub power : ℕ

pub record State : Type 0 where
  pub accounts : Dict Address Account
  pub immune_nodes : Dict Address ImmuneNodeRecord
  pub sovereign_proofs : Dict String SovereignProofRecord
  pub bridge_events : Dict String BridgeRecord
  pub processed_bridge_events : Dict String Bool
  pub bridge_validators : Dict String String
  pub bridge_quorum : ℕ
  pub last_sovereign_proof_id : String
  pub last_bridge_event_id : String
  pub total_supply : ℕ
  pub citizen_stakes : Dict Address CitizenStake
  pub treasury_address : Address
  pub citizen_reward_rate_bps_per_year : ℕ
  pub governance_proposals : Dict String Proposal
  pub governance_founder : Address
  pub dex_pools : Dict String Pool
  pub validators : Dict Address ValidatorRecord
  pub validator_set_snapshot : List ActiveValidator
  pub fee_epoch_treasury_income : ℕ
  pub fee_epoch_total_power : ℕ
  pub fee_epoch_signed_power : Dict Address ℕ

-- MAX_SUPPLY
abbrev pub max_supply : ℕ
max_supply = 100_000_000_000

-- The zero values that a read of a missing map entry gives.
abbrev pub zero_account : Account
zero_account = record { balance = 0; assets = []; nonce = 0 }

abbrev pub zero_stake : CitizenStake
zero_stake = record { amount = 0; staked_at = 0; last_claim_at = 0 }

-- NewState
unfoldable pub new_state : State
new_state = record {
  accounts = [];
  immune_nodes = [];
  sovereign_proofs = [];
  bridge_events = [];
  processed_bridge_events = [];
  bridge_validators = [];
  bridge_quorum = 0;
  last_sovereign_proof_id = "";
  last_bridge_event_id = "";
  total_supply = max_supply;
  citizen_stakes = [];
  treasury_address = "";
  citizen_reward_rate_bps_per_year = 0;
  governance_proposals = [];
  governance_founder = "";
  dex_pools = [];
  validators = [];
  validator_set_snapshot = [];
  fee_epoch_treasury_income = 0;
  fee_epoch_total_power = 0;
  fee_epoch_signed_power = [];
}

-- s.Accounts[a], with the zero account for a missing entry
abbrev pub account_of : Address → State → Account
account_of a s = get_or (lookup a s.accounts) zero_account

-- s.Accounts[a] = acc
abbrev pub set_account : Address → Account → State → State
set_account a acc s = record s { accounts = insert a acc s.accounts }

-- metadataValue: the first value under the key, "" for none
abbrev pub metadata_value : List KeyValuePair → String → String
metadata_value [] key = ""
metadata_value (kv ∷ rest) key = if kv.key == key then kv.value else metadata_value rest key

abbrev pub set_validators : Dict Address ValidatorRecord → State → State
set_validators m s = record s { validators = m }
