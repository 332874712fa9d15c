-- ===== src/Chain/Blocks/Lookup.antt =====
-- chain.go: what the reads of blocks by height return.
use synthos_collective.Prelude.{
  ℕ, zero, suc, ◌+◌, ◌-◌, ◌≡◌, ◌<◌, ◌≤◌, refl, inl, inr, none, some, Option, List, [], ◌∷◌, ◌++◌,
  length, take, drop, get_elem?, length-take, arith, nat_eq, Option-cases, min, false,
}
use synthos_collective.Chain.Blocks.Types.{Block, Chain, last, tip}
use synthos_collective.Chain.Blocks.Window.{block_in_memory, cold_range, blocks_range}
use synthos_collective.Chain.Blocks.History.{Numbered, next_height, last-height}

last-none : (bs : List Block) → last bs ≡ none → length bs ≡ 0
last-none [] h = omega arith
last-none (b ∷ []) h = ground arith
last-none (b ∷ (c ∷ rest)) h = omega (arith, last-none (c ∷ rest) h)

Numbered-height :
    (h i : ℕ) (bs : List Block) (b : Block)
    → Numbered h bs
    → get_elem? bs i ≡ some b
    → b.header.height ≡ h + i
Numbered-height h i [] b all e = ground arith
Numbered-height h zero (c ∷ rest) b (here, all) e = ground arith
Numbered-height h (suc i) (c ∷ rest) b (here, all) e =
    omega (arith, Numbered-height (suc h) i rest b all e)

in_range : (i : ℕ) (bs : List Block) → i < length bs → (b : Block) × (get_elem? bs i ≡ some b)
in_range i [] h = ground arith
in_range zero (b ∷ rest) h = (b, refl)
in_range (suc i) (b ∷ rest) h = in_range i rest (omega arith)

-- Where the blocks in memory are numbered from the start of the window, every height from there to
-- the tip has its block in memory, and a block that is found in memory has the height asked for.
block_in_memory-height :
    (height : ℕ) (c : Chain)
    → Numbered c.hot_window_start c.blocks
    → c.hot_window_start ≤ height
    → height < next_height c
    → (b : Block) × (block_in_memory height c ≡ (some b, false)) × (b.header.height ≡ height)
unfolding block_in_memory
block_in_memory-height height c all low high =
    let (b, found) = in_range (height - c.hot_window_start) c.blocks (omega arith) in
    let at =
      Numbered-height c.hot_window_start (height - c.hot_window_start) c.blocks b all found in
    elim (Option-cases (tip c)) [
      | inl missing ↦ ground (arith, last-none c.blocks missing)
      | inr (t, last_) ↦
          let top = last-height c.hot_window_start c.blocks t all last_ in
          (b, ground (arith, last_, found, top), omega arith)
    ]

cold_range-length :
    (reader : ℕ → Option Block) (height n : ℕ) → length (cold_range reader height n) ≤ n
unfolding cold_range
cold_range-length reader height zero = omega arith
cold_range-length reader height (suc n) = elim (Option-cases (reader height)) [
  | inl missing ↦ ground (arith, missing)
  | inr (b, found) ↦ ground (arith, found, cold_range-length reader (suc height) n)
]

-- With a limit, BlocksRange never returns more blocks than it allows.
blocks_range-limit :
    (from limit : ℕ) (c : Chain) → 0 < limit → length (blocks_range from limit c) ≤ limit
unfolding blocks_range
blocks_range-limit from limit c pos = elim (Option-cases (tip c)) [
  | inl missing ↦ ground (arith, missing)
  | inr (t, found) ↦
      let want = min limit (t.header.height - from + 1) in
      let cold_count = c.hot_window_start - from in
      let a = length-take want (drop (from - c.hot_window_start) c.blocks) in
      let b = length-take (want - cold_count) c.blocks in
      elim (Option-cases c.cold_blocks) [
        | inl absent ↦ ground (arith, found, absent)
        | inr (reader, present) ↦
            let cold = cold_range reader from (min limit cold_count) in
            let d = cold_range-length reader from (min limit cold_count) in
            let e = length-take limit (cold ++ take (want - cold_count) c.blocks) in
            ground (arith, found, present)
      ]
]
