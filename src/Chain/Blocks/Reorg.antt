-- ===== src/Chain/Blocks/Reorg.antt =====
-- chain.go: TryReorg, the switch to a branch with more approvals. No other call runs between its two
-- locked parts, so the check that the chain has not advanced is left out.
use synthos_collective.Prelude.{
  ℕ, suc, ◌-◌, Bool, true, false, not, ◌&&◌, ◌||◌, none, some, List, [], ◌∷◌, ◌++◌, length, take,
  drop, sum_by, ltb, leb, if◌then◌else◌, ◌==◌, nat_eq, string_eq,
}
use synthos_collective.Chain.Errors.{ChainError, chain, runtime_panic}
use synthos_collective.Chain.Types.{State}
use synthos_collective.Chain.Monad.{Result, ok, err, Action}
use synthos_collective.Chain.Execution.{Crypto}
use synthos_collective.Chain.Blocks.Types.{Block, Chain, Hashing, height_of, transaction_chain_id}
use synthos_collective.Chain.Blocks.Authority.{verified_approval_count}
use synthos_collective.Chain.Blocks.Window.{
  hot_window_base_state_of, hot_window_base_block_of, trim_hot_window,
}
use synthos_collective.Chain.Blocks.Finality.{finalize_block}

-- scratch: the chain that replays a branch from an anchor. The heights from which signatures and
-- state roots are enforced, and the corrections, are the zero values in it.
unfoldable pub scratch_chain : State → Block → Chain → Chain
unfolding transaction_chain_id
scratch_chain base_state base_block c = record {
  chain_id = c.chain_id;
  tx_chain_id = transaction_chain_id c;
  state = base_state;
  dex = [];
  blocks = base_block ∷ [];
  mempool = [];
  validator_keys = c.validator_keys;
  required_quorum = c.required_quorum;
  genesis_state = none;
  auth_enforce_from_height = 0;
  state_root_enforce_from_height = 0;
  state_corrections = [];
  validator_staking = c.validator_staking;
  hot_window_start = 0;
  max_hot_blocks = 0;
  cold_blocks = none;
  hot_window_base_state = none;
  hot_window_base_block = none;
}

-- The index of the contested blocks, and of the first block that is replayed before them.
abbrev pub fork_index : ℕ → Chain → ℕ
fork_index fork_height c = fork_height - c.hot_window_start

abbrev pub prefix_start : Chain → ℕ
prefix_start c = if c.hot_window_start == 0 then 1 else 0

abbrev pub agreed_prefix : ℕ → Chain → List Block
agreed_prefix fork_height c = drop (prefix_start c) (take (fork_index fork_height c) c.blocks)

abbrev pub current_tail : ℕ → Chain → List Block
current_tail fork_height c = drop (fork_index fork_height c) c.blocks

abbrev starts_at : ℕ → List Block → Bool
starts_at height [] = false
starts_at height (b ∷ _) = b.header.height == height

-- The checks before the replay, and the panic of the slices where the fork is beyond the blocks in
-- memory: from there on `take` and `drop` stay within them.
unfoldable pub check_fork : ℕ → List Block → Chain → Result (Unit {0})
unfolding height_of
check_fork fork_height candidate c = elim c.genesis_state [
  | none ↦ err (chain ChainError.reorg_unavailable)
  | some _ ↦
      if fork_height == 0 || ltb (height_of c) fork_height
      then err (chain ChainError.bad_block)
      else if ltb fork_height c.hot_window_start
      then err (chain ChainError.reorg_unavailable)
      else if length candidate == 0
      then err (chain ChainError.empty_branch)
      else if not (starts_at fork_height candidate)
      then err (chain ChainError.bad_block)
      else if ltb (length c.blocks) (fork_height - c.hot_window_start)
      then err runtime_panic
      else ok tt
]

module _ (crypto : Crypto) where
  -- scoreOf
  unfoldable pub score_of : Chain → List Block → ℕ
  unfolding verified_approval_count
  score_of c = sum_by (verified_approval_count crypto.verify c.validator_keys)

  -- The fork choice: more approvals, and of equally many the longer branch.
  unfoldable pub is_heavier : Chain → List Block → List Block → Bool
  unfolding score_of
  is_heavier c candidate tail =
      let ours = score_of c tail in
      let theirs = score_of c candidate in
      not (ltb theirs ours || (theirs == ours && leb (length candidate) (length tail)))

  -- Blocks finalized one after the other.
  unfoldable pub replay_blocks : Hashing → ℕ → List Block → Chain → Result Chain
  unfolding finalize_block
  replay_blocks hashing now [] c = ok c
  replay_blocks hashing now (b ∷ rest) c =
      let (r, c') = finalize_block crypto hashing now b c in
      elim r [ err e ↦ err e | ok _ ↦ replay_blocks hashing now rest c' ]

  -- The swap at the end of TryReorg.
  unfoldable pub swap_branch : List Block → Chain → Chain → Chain
  unfolding trim_hot_window
  swap_branch prefix scratch c = trim_hot_window crypto (record c {
    blocks = prefix ++ drop (suc (length prefix)) scratch.blocks;
    state = scratch.state;
  })

  -- The replay and the swap, from an anchor.
  unfoldable pub replay_branch : Hashing → ℕ → ℕ → List Block → State → Block → Action Chain Bool
  unfolding is_heavier replay_blocks scratch_chain swap_branch
  replay_branch hashing now fork_height candidate base_state base_block c =
      let prefix = agreed_prefix fork_height c in
      let scratch = scratch_chain base_state base_block c in
      if not (is_heavier c candidate (current_tail fork_height c))
      then (ok false, c)
      else elim (replay_blocks hashing now (prefix ++ candidate) scratch) [
        | err e ↦ (err e, c)
        | ok replayed ↦ (ok true, swap_branch prefix replayed c)
      ]

  -- TryReorg: whether it switched
  unfoldable pub try_reorg : Hashing → ℕ → ℕ → List Block → Action Chain Bool
  unfolding check_fork hot_window_base_state_of hot_window_base_block_of replay_branch
  try_reorg hashing now fork_height candidate c = elim (check_fork fork_height candidate c) [
    | err e ↦ (err e, c)
    | ok _ ↦ elim (hot_window_base_state_of c) [
      | none ↦ (err (chain ChainError.reorg_unavailable), c)
      | some base_state ↦ elim (hot_window_base_block_of c) [
        | none ↦ (err (chain ChainError.reorg_unavailable), c)
        | some base_block ↦ replay_branch hashing now fork_height candidate base_state base_block c
      ]
    ]
  ]
