-- ===== src/Chain/Blocks/Window.antt =====
-- chain.go: the blocks that stay in memory, and the reads of a block by its height.
use synthos_collective.Prelude.{
  ℕ, zero, suc, ◌+◌, ◌-◌, Bool, true, false, ◌||◌, Option, none, some, List, [], ◌∷◌, ◌++◌, length,
  take, drop, get_elem?, ltb, leb, if◌then◌else◌, ◌==◌, nat_eq, min,
}
use synthos_collective.Words.{add64}
use synthos_collective.Chain.Types.{State}
use synthos_collective.Chain.Monad.{Result, ok, err}
use synthos_collective.Chain.Execution.{Crypto}
use synthos_collective.Chain.Blocks.Types.{Block, Chain, Rules, rules_of, tip}
use synthos_collective.Chain.Blocks.Transition.{block_state}

abbrev pub head_block : List Block → Option Block
head_block [] = none
head_block (b ∷ _) = some b

-- hotWindowBaseStateLocked
unfoldable pub hot_window_base_state_of : Chain → Option State
hot_window_base_state_of c =
    if c.hot_window_start == 0 then c.genesis_state else c.hot_window_base_state

-- hotWindowBaseBlockLocked
unfoldable pub hot_window_base_block_of : Chain → Option Block
hot_window_base_block_of c =
    if c.hot_window_start == 0 then head_block c.blocks else c.hot_window_base_block

-- blockAtLocked: the block in memory, and whether the archive may have it
unfoldable pub block_in_memory : ℕ → Chain → Option Block × Bool
block_in_memory height c = elim (tip c) [
  | none ↦ (none, false)
  | some t ↦
      if ltb t.header.height height
      then (none, false)
      else if ltb height c.hot_window_start
      then (none, true)
      else elim (get_elem? c.blocks (height - c.hot_window_start)) [
        | none ↦ (none, true)
        | some b ↦ (some b, false)
      ]
]

-- BlockAt
unfoldable pub block_at : ℕ → Chain → Option Block
unfolding block_in_memory
block_at height c =
    let (found, maybe_cold) = block_in_memory height c in
    elim found [
      | some b ↦ some b
      | none ↦ elim c.cold_blocks [
        | none ↦ none
        | some reader ↦ if maybe_cold then reader height else none
      ]
    ]

-- The loop over the archive: from a height, at most `n` blocks, up to the first gap.
unfoldable pub cold_range : (ℕ → Option Block) → ℕ → ℕ → List Block
cold_range reader height zero = []
cold_range reader height (suc n) = elim (reader height) [
  | none ↦ []
  | some b ↦ b ∷ cold_range reader (suc height) n
]

-- `limit > 0` cuts a list to `n`.
abbrev pub cut_to : ℕ → ℕ → List Block → List Block
cut_to limit n bs = if limit == 0 then bs else take n bs

-- BlocksRange. `from` and `limit` are 0 for every int that is negative.
unfoldable pub blocks_range : ℕ → ℕ → Chain → List Block
unfolding cold_range
blocks_range from limit c = elim (tip c) [
  | none ↦ []
  | some t ↦
      let available = t.header.height - from + 1 in
      let want = if limit == 0 then available else min limit available in
      let cold_count = c.hot_window_start - from in
      let cold_limit = if limit == 0 then cold_count else min limit cold_count in
      let hot = cut_to limit (want - cold_count) c.blocks in
      if ltb t.header.height from
      then []
      else if leb c.hot_window_start from
      then cut_to limit want (drop (from - c.hot_window_start) c.blocks)
      else elim c.cold_blocks [
        | none ↦ hot
        | some reader ↦
            let cold = cold_range reader from cold_limit in
            if ltb (length cold) cold_limit then cold else cut_to limit limit (cold ++ hot)
      ]
]

-- BlocksFrom
unfoldable pub blocks_from : ℕ → Chain → List Block
unfolding blocks_range
blocks_from from c = blocks_range from 0 c

module _ (crypto : Crypto) where
  -- The loop of trimHotWindowLocked: the checkpoint moved past each block.
  unfoldable pub advance_checkpoint : Rules → List Block → State → Result State
  unfolding block_state
  advance_checkpoint r [] s = ok s
  advance_checkpoint r (b ∷ rest) s = elim (block_state crypto r b s) [
    | err e ↦ err e
    | ok s' ↦ advance_checkpoint r rest s'
  ]

  -- trimHotWindowLocked
  unfoldable pub trim_hot_window : Chain → Chain
  unfolding hot_window_base_state_of advance_checkpoint
  trim_hot_window c =
      let excess = length c.blocks - c.max_hot_blocks in
      if c.max_hot_blocks == 0 || excess == 0 then c else elim (hot_window_base_state_of c) [
        | none ↦ c
        | some base ↦ elim (advance_checkpoint (rules_of c) (take excess c.blocks) base) [
          | err _ ↦ c
          | ok next ↦ record c {
            hot_window_base_state = some next;
            hot_window_base_block = get_elem? c.blocks (excess - 1);
            blocks = drop excess c.blocks;
            hot_window_start = add64 c.hot_window_start excess;
          }
        ]
      ]

  -- SetHotWindow
  unfoldable pub set_hot_window : ℕ → Option (ℕ → Option Block) → Chain → Chain
  unfolding trim_hot_window
  set_hot_window max_hot_blocks reader c =
      trim_hot_window (record c { max_hot_blocks = max_hot_blocks; cold_blocks = reader })

  abbrev keep_new {ℓ} : {A : Type ℓ} → Option A → Option A → Option A
  keep_new (some a) old = some a
  keep_new none old = old

  -- RestoreHotWindow
  unfoldable pub restore_hot_window :
      ℕ → Option State → Option Block → ℕ → Option (ℕ → Option Block) → Chain → Chain
  unfolding trim_hot_window
  restore_hot_window start base_state base_block max_hot_blocks reader c =
      trim_hot_window (record c {
        hot_window_start = start;
        hot_window_base_state = keep_new base_state c.hot_window_base_state;
        hot_window_base_block = keep_new base_block c.hot_window_base_block;
        max_hot_blocks = max_hot_blocks;
        cold_blocks = reader;
      })
