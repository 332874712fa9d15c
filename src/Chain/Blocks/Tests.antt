-- ===== src/Chain/Blocks/Tests.antt =====
-- chain.go, block.go and merkle.go at concrete inputs.
use synthos_collective.Prelude.{
  ◌≡◌, suc, ◌≢◌, ◌⊎◌, ◌↔◌, refl, eq_iff, string_eq, ℕ, Bool, true, false, none, some, List, [], ◌∷◌,
  arith, String, ◌+◌, ◌≤◌,
}
use synthos_collective.Words.{add64, mul64, sub64}
use synthos_collective.Text.Numbers.{format_uint}
use synthos_collective.Dict.{lookup, insert}
use synthos_collective.Chain.Types.{State, Tx, new_state}
use synthos_collective.Chain.Monad.{Result, ok, err}
use synthos_collective.Chain.Governance.Execution.{balances}
use synthos_collective.Chain.Execution.Samples.{
  plain_crypto, key32, sig64, payment, no_staking, purse,
}
use synthos_collective.Chain.Blocks.Types.{Block, Chain, Hashing, rules_of}
use synthos_collective.Chain.Blocks.Fees.{credit_proposer_fees}
use synthos_collective.Chain.Blocks.Window.{
  hot_window_base_state_of, advance_checkpoint, set_hot_window,
}
use synthos_collective.Chain.Blocks.Mempool.{check_citizen_clock, submit_tx}
use synthos_collective.Chain.Blocks.Building.{build_block, candidate_block, candidates}
use synthos_collective.Chain.Blocks.Transition.{apply_tx_at, block_state}
use synthos_collective.Chain.Blocks.Finality.{check_replay, finalize_block}
use synthos_collective.Chain.Blocks.Reorg.{try_reorg}
use synthos_collective.Chain.Blocks.History.{Numbered, IsHistory, Run, Run-IsHistory}
use synthos_collective.Chain.Blocks.Agreement.{SkipsClean, Extends, build_block-accepted}
use synthos_collective.Chain.Blocks.Rewards.{credit_proposer_fees-balances}
use synthos_collective.Chain.Blocks.Clock.{check_citizen_clock-ok}
use synthos_collective.Chain.Blocks.Switch.{Outcome, try_reorg-Outcome}
use synthos_collective.Chain.Blocks.Shift.{try_reorg-Numbered}

-- Hashes that are names.
abbrev toy_hashing : Hashing
toy_hashing = record {
  leaf_hash = λ tx. tx.id;
  pair_hash = λ a b. a;
  block_hash = λ h txs. "0xblock";
  state_root = λ s. "0xroot";
}

abbrev block_of : ℕ → List Tx → Block
block_of height txs = record {
  header = record {
    height = height;
    parent_hash = "0xblock";
    timestamp = 0;
    proposer_id = "v";
    tx_merkle_root = "0x0000000000000000000000000000000000000000000000000000000000000000";
    state_root = "0xroot";
    proposer_poc_root = "";
  };
  txs = txs;
  hash = "0xblock";
  validator_votes = [];
  finalized = true;
  proposer_signature = sig64;
  quorum_signatures = ("v", sig64) ∷ [];
}

-- The chain after its genesis block.
abbrev young : Chain
young = record {
  chain_id = "test";
  tx_chain_id = 0;
  state = purse;
  dex = [];
  blocks = block_of 0 [] ∷ [];
  mempool = [];
  validator_keys = ("v", key32) ∷ [];
  required_quorum = 1;
  genesis_state = some purse;
  auth_enforce_from_height = 0;
  state_root_enforce_from_height = 0;
  state_corrections = [];
  validator_staking = no_staking;
  hot_window_start = 0;
  max_hot_blocks = 0;
  cold_blocks = none;
  hot_window_base_state = none;
  hot_window_base_block = none;
}

-- The chain after two empty blocks more.
abbrev grown : Chain
grown = record young { blocks = block_of 0 [] ∷ (block_of 1 [] ∷ (block_of 2 [] ∷ [])) }

abbrev plain_block_of : ℕ → Block
plain_block_of height = record (block_of height []) { finalized = false }

young-IsHistory : IsHistory plain_crypto young
unfolding hot_window_base_state_of advance_checkpoint block_state new_state lookup
young-IsHistory = ((refl, tt), tt, (purse, refl, refl))

grows : (finalize_block plain_crypto toy_hashing 0 (block_of 1 []) young).0 ≡ ok tt
unfolding finalize_block new_state lookup insert add64
grows = refl

Run-IsHistory_example : IsHistory plain_crypto (
    set_hot_window plain_crypto 1 none
      (submit_tx plain_crypto 0
        (payment 0)
        (finalize_block plain_crypto toy_hashing 0 (block_of 1 []) young).1).1)
Run-IsHistory_example =
    Run-IsHistory plain_crypto toy_hashing
      (Run.windowed 1 none (Run.submitted 0 (payment 0) (Run.offered 0 (block_of 1 []) Run.start)))
      (omega arith) young-IsHistory

-- A chain with one transaction that waits.
abbrev waiting : Chain
waiting = record young { mempool = ("0xpayload", payment 0) ∷ [] }

abbrev built_block : Block
unfolding new_state
built_block = candidate_block toy_hashing 0 "v" "poc" (block_of 0 []) (payment 0 ∷ []) new_state

builds : build_block plain_crypto toy_hashing 0 "v" "poc" 0 waiting ≡ ok built_block
unfolding build_block new_state lookup insert add64 mul64
builds = refl

clean : SkipsClean (apply_tx_at plain_crypto (rules_of waiting) 1) (payment 0 ∷ []) purse
unfolding apply_tx_at new_state lookup insert add64
clean = tt

build_block-accepted_example :
    (check_replay plain_crypto toy_hashing waiting built_block ≡ ok tt)
    × Extends plain_crypto toy_hashing waiting built_block
unfolding candidates add64 built_block
build_block-accepted_example =
    build_block-accepted plain_crypto toy_hashing 0 0 "v" "poc" waiting built_block builds tt clean

-- A correction at the height of the block is applied twice by the proposer and once by the checks:
-- where the state's root shows it, the proposer's own block is refused.
abbrev root_hashing : Hashing
root_hashing = record toy_hashing { state_root = λ s. format_uint (balances s) }

abbrev corrected : Chain
corrected = record young {
  state_corrections = record { at_height = 1; address = key32; debit = 30 } ∷ [];
}

abbrev is_refused : Result Block → Bool
is_refused (err _) = false
is_refused (ok b) = elim (check_replay plain_crypto root_hashing corrected b) [
  | err _ ↦ true
  | ok _ ↦ false
]

corrected_twice : is_refused (build_block plain_crypto root_hashing 0 "v" "" 0 corrected) ≡ true
unfolding build_block check_replay new_state lookup insert add64 mul64 format_uint
corrected_twice = refl

abbrev credited_state : State
credited_state = elim (credit_proposer_fees (payment 0 ∷ []) key32 purse) [
  | err _ ↦ purse
  | ok s ↦ s
]

credits : credit_proposer_fees (payment 0 ∷ []) key32 purse ≡ ok credited_state
unfolding credit_proposer_fees new_state lookup insert mul64
credits = refl

abbrev no_key : String
no_key = ""

key32-named : key32 ≢ no_key
key32-named h = ground (arith, eq_iff key32 no_key)

credit_proposer_fees-balances_example : balances credited_state + 5 ≡ balances purse + 10
credit_proposer_fees-balances_example =
    credit_proposer_fees-balances (payment 0 ∷ []) key32 purse credited_state key32-named
      (omega arith) credits

abbrev stake_tx : Tx
stake_tx = record (payment 0) {
  metadata = (record { key = "type"; value = "citizen_stake" }) ∷ [];
  timestamp = 1000;
}

check_citizen_clock-ok_example : (check_citizen_clock stake_tx 1250 ≡ ok tt) ↔ (
    (sub64 1000 1250 ≤ 300)
    ⊎ ((sub64 1250 1000 ≤ 300) ⊎ (sub64 1000 1250 ≡ 9_223_372_036_854_775_808)))
check_citizen_clock-ok_example =
    check_citizen_clock-ok stake_tx 1250 refl (omega arith) (omega arith)

-- A branch of two blocks against the last block.
abbrev branch : List Block
branch = plain_block_of 2 ∷ (plain_block_of 3 ∷ [])

switches : (try_reorg plain_crypto toy_hashing 0 2 branch grown).0 ≡ ok true
unfolding try_reorg new_state lookup insert add64 mul64
switches = refl

try_reorg-Numbered_example :
    let c' = (try_reorg plain_crypto toy_hashing 0 2 branch grown).1 in
    Numbered (suc c'.hot_window_start) c'.blocks
try_reorg-Numbered_example =
    try_reorg-Numbered plain_crypto toy_hashing 0 2 branch grown refl (omega arith)
      (refl, (refl, (refl, tt))) switches

try_reorg-Outcome_example :
    Outcome plain_crypto toy_hashing 0 2 branch grown
      (try_reorg plain_crypto toy_hashing 0 2 branch grown)
try_reorg-Outcome_example = try_reorg-Outcome plain_crypto toy_hashing 0 2 branch grown
