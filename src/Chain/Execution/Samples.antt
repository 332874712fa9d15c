-- ===== src/Chain/Execution/Samples.antt =====
-- Concrete inputs for core.go and chain.go: a signature scheme, a payment and a state.
use synthos_collective.Prelude.{[], ◌∷◌, String, ℕ, true, none}
use synthos_collective.Chain.Types.{State, Tx, new_state}
use synthos_collective.Chain.Staking.Params.{ValidatorStakingParams}
use synthos_collective.Chain.Execution.{Crypto}

-- A stand-in for Go's cryptography under which a key is its own address.
abbrev pub plain_crypto : Crypto
plain_crypto = record {
  sha256 = λ s. s;
  verify = λ key message signature. true;
  address_from_public_key = λ key. key;
  signing_bytes = λ tx. "payload";
  decode_signatures = λ text. none;
}

abbrev pub key32 : String
key32 = "00112233445566778899aabbccddeeff00112233445566778899aabbccddeeff"

abbrev pub sig64 : String
sig64 =
    "00112233445566778899aabbccddeeff00112233445566778899aabbccddeeff00112233445566778899aabbccddeeff00112233445566778899aabbccddeeff"

abbrev pub payment : ℕ → Tx
payment nonce = record {
  id = "0xpayload";
  chain_id = 1;
  from = key32;
  to = "bob";
  amount = 5;
  fee = 10;
  nonce = nonce;
  public_key = key32;
  signature = sig64;
  asset_id = "";
  metadata = [];
  timestamp = 0;
}

abbrev pub no_staking : ValidatorStakingParams
no_staking = record {
  enabled_from_height = 0;
  min_self_bond = 0;
  unbonding_blocks = 0;
  max_active_validators = 0;
  consensus_from_height = 0;
  epoch_blocks = 0;
  slash_fraction_bps = 0;
  reporter_reward_bps = 0;
}

abbrev pub purse : State
unfolding new_state
purse = record new_state {
  accounts = (key32, record { balance = 100; assets = []; nonce = 0 }) ∷ [];
}
