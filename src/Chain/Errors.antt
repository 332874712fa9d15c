-- ===== src/Chain/Errors.antt =====
-- The errors of internal/chain: a type for each source file, a constructor for each message.
pub data CoreError : Type 0 where
  uint64_overflow insufficient_funds bad_nonce amount_overflow : CoreError
  recipient_overflow insufficient_asset recipient_asset_overflow : CoreError
  inner_circle_too_small unhandled_tx_type missing_field bad_number : CoreError
  number_out_of_range bad_scope node_not_active bad_signature bad_public_key : CoreError
  from_mismatch id_mismatch fee_too_low : CoreError

pub data CitizenError : Type 0 where
  stake_not_positive stake_overflow unstake_not_positive no_stake : CitizenError
  insufficient_stake unstake_overflow rewards_not_configured claim_overflow : CitizenError

pub data GovernanceError : Type 0 where
  empty_id empty_recipient not_configured not_founder proposal_exists : GovernanceError
  not_active already_voted no_stake already_executed not_enough_votes : GovernanceError
  quorum_not_reached no_treasury treasury_insufficient no_proposal : GovernanceError
  recipient_overflow : GovernanceError

pub data StakingError : Type 0 where
  bond_too_small key_in_use key_mismatch not_found insufficient_bond : StakingError
  too_many_unbonding nothing_matured asset_not_syn tombstoned : StakingError
  consensus_inactive invalid_evidence missing_key bad_key bad_profile : StakingError
  self_bond_overflow height_overflow withdraw_overflow balance_overflow : StakingError

pub data ParamsError : Type 0 where
  min_self_bond unbonding_blocks max_active consensus_height epoch_blocks : ParamsError
  slash_fraction reporter_reward : ParamsError

pub data DexError : Type 0 where
  insufficient_input insufficient_liquidity input_overflow numerator_overflow : DexError
  reserve_overflow denominator_overflow zero_reserve nothing_minted : DexError
  pool_not_found invalid_shares insufficient_shares zero_output : DexError
  invalid_asset_id amounts_not_positive asset_overflow insufficient_asset : DexError
  slippage pool_mismatch insufficient_reserve : DexError

pub data BridgeError : Type 0 where
  missing_destination duplicate_event missing_source no_validators : BridgeError
  missing_signatures bad_signatures bad_quorum bad_key quorum_not_met : BridgeError
  already_processed : BridgeError

pub data ChainError : Type 0 where
  no_genesis bad_block state_root_mismatch wrong_chain_id : ChainError
  timestamp_before_parent timestamp_in_future unknown_proposer : ChainError
  bad_proposer_signature quorum_not_met fee_overflow reward_overflow : ChainError
  missing_id already_in_mempool nonce_mismatch clock_skew : ChainError
  reorg_unavailable empty_branch : ChainError
  treasury_required treasury_overflow income_overflow genesis_validator : ChainError

-- `runtime_panic` stands for a Go panic, which ends the process and is never returned as an error.
pub data Error : Type 0 where
  core : CoreError → Error
  citizen : CitizenError → Error
  governance : GovernanceError → Error
  staking : StakingError → Error
  params : ParamsError → Error
  dex : DexError → Error
  bridge : BridgeError → Error
  chain : ChainError → Error
  runtime_panic : Error
