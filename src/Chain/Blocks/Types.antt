-- ===== src/Chain/Blocks/Types.antt =====
-- block.go and chain.go: the data of a chain of blocks. A time is a number of nanoseconds, 0 for the
-- zero time. The Clone of a state is the state. The DEX of a Chain is its map of pools; the oracle
-- is not used by any method here.
use synthos_collective.Prelude.{
  ℕ, Bool, Option, none, some, List, [], ◌∷◌, if◌then◌else◌, ◌==◌, nat_eq, String,
}
use synthos_collective.Dict.{Dict}
use synthos_collective.Chain.Types.{Address, Pool, State, Tx}
use synthos_collective.Chain.Staking.{TxContext}
use synthos_collective.Chain.Staking.Params.{ValidatorStakingParams}

pub record BlockHeader : Type 0 where
  pub height : ℕ
  pub parent_hash : String
  pub timestamp : ℕ
  pub proposer_id : String
  pub tx_merkle_root : String
  pub state_root : String
  pub proposer_poc_root : String

pub record Block : Type 0 where
  pub header : BlockHeader
  pub txs : List Tx  -- Tx
  pub hash : String
  pub validator_votes : Dict String ℕ
  pub finalized : Bool
  pub proposer_signature : String
  pub quorum_signatures : Dict String String

pub record StateCorrection : Type 0 where
  pub at_height : ℕ  -- Height
  pub address : Address
  pub debit : ℕ

-- What the blocks take from sha256 over JSON: a leaf of the transaction tree, a node of it, the
-- canonical hash of a block, and State.Root.
pub record Hashing : Type 0 where
  pub leaf_hash : Tx → String
  pub pair_hash : String → String → String
  pub block_hash : BlockHeader → List Tx → String
  pub state_root : State → String

pub record Chain : Type 0 where
  pub chain_id : String
  pub tx_chain_id : ℕ
  pub state : State
  pub dex : Dict String Pool
  pub blocks : List Block
  pub mempool : Dict String Tx
  pub validator_keys : Dict String String  -- each key in hex
  pub required_quorum : ℕ
  pub genesis_state : Option State
  pub auth_enforce_from_height : ℕ
  pub state_root_enforce_from_height : ℕ
  pub state_corrections : List StateCorrection
  pub validator_staking : ValidatorStakingParams
  pub hot_window_start : ℕ
  pub max_hot_blocks : ℕ  -- 0 for every int that is not positive
  pub cold_blocks : Option (ℕ → Option Block)
  pub hot_window_base_state : Option State
  pub hot_window_base_block : Option Block

abbrev pub last : List Block → Option Block
last [] = none
last (b ∷ []) = some b
last (b ∷ (c ∷ rest)) = last (c ∷ rest)

-- tipLocked and Tip
abbrev pub tip : Chain → Option Block
tip c = last c.blocks

-- heightLocked and Height
unfoldable pub height_of : Chain → ℕ
height_of c = elim (tip c) [ none ↦ 0 | some b ↦ b.header.height ]

-- transactionChainIDLocked
unfoldable pub transaction_chain_id : Chain → ℕ
transaction_chain_id c = if c.tx_chain_id == 0 then 1 else c.tx_chain_id

-- The parts of a Chain that say what a block does to a state.
pub record Rules : Type 0 where
  pub chain_id : String
  pub staking : ValidatorStakingParams
  pub corrections : List StateCorrection
  pub keys : Dict String String

abbrev pub rules_of : Chain → Rules
rules_of c = record {
  chain_id = c.chain_id;
  staking = c.validator_staking;
  corrections = c.state_corrections;
  keys = c.validator_keys;
}

-- The context that applyTxLocked gives a transaction at a height.
abbrev pub context : Rules → ℕ → TxContext
context r height = record { height = height; params = r.staking; chain_id = r.chain_id }

-- SetAuthEnforceFromHeight
unfoldable pub set_auth_enforce_from_height : ℕ → Chain → Chain
set_auth_enforce_from_height height c = record c { auth_enforce_from_height = height }

-- SetStateRootEnforceFromHeight
unfoldable pub set_state_root_enforce_from_height : ℕ → Chain → Chain
set_state_root_enforce_from_height height c = record c { state_root_enforce_from_height = height }

-- SetIrregularStateCorrections
unfoldable pub set_irregular_state_corrections : List StateCorrection → Chain → Chain
set_irregular_state_corrections corrections c = record c { state_corrections = corrections }

-- SetValidatorSet. A required quorum below 1 becomes 1.
unfoldable pub set_validator_set : Dict String String → ℕ → Chain → Chain
set_validator_set keys required c = record c {
  validator_keys = keys;
  required_quorum = if required == 0 then 1 else required;
}

-- SetValidatorStakingParams
unfoldable pub set_validator_staking_params : ValidatorStakingParams → Chain → Chain
set_validator_staking_params p c = record c { validator_staking = p }

-- SeedGenesisState, with a state that is not nil
unfoldable pub seed_genesis_state : State → Chain → Chain
seed_genesis_state s c = record c { genesis_state = some s }

abbrev with_rewards_of : State → State → State
with_rewards_of genesis s = record s {
  treasury_address = genesis.treasury_address;
  citizen_reward_rate_bps_per_year = genesis.citizen_reward_rate_bps_per_year;
}

-- ReapplyGenesisCitizenRewardConfig, with a state that is not nil
unfoldable pub reapply_genesis_citizen_reward_config : State → Chain → Chain
reapply_genesis_citizen_reward_config genesis c = record c {
  state = with_rewards_of genesis c.state;
  hot_window_base_state = elim c.hot_window_base_state [
    | none ↦ none
    | some s ↦ some (with_rewards_of genesis s)
  ];
}
