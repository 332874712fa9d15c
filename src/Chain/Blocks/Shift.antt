-- ===== src/Chain/Blocks/Shift.antt =====
-- chain.go: what TryReorg does to the heights of the blocks in memory.
use synthos_collective.Prelude.{
  subst, sym, ◌∙◌, ℕ, zero, suc, ◌+◌, ◌-◌, ◌≡◌, ◌<◌, ◌≤◌, refl, inl, inr, some, Bool, true, false,
  List, [], ◌∷◌, ◌++◌, length, map, take, drop, arith, length-append, length-take, String,
}
use synthos_collective.Words.{u64_mod, add64_exact}
use synthos_collective.Chain.Monad.{Result, ok, err}
use synthos_collective.Chain.Execution.{Crypto}
use synthos_collective.Chain.Blocks.Types.{Block, Chain, Hashing}
use synthos_collective.Chain.Blocks.Window.{hot_window_base_block_of, head_block}
use synthos_collective.Chain.Blocks.Reorg.{agreed_prefix, prefix_start, try_reorg}
use synthos_collective.Chain.Blocks.History.{Numbered, Numbered-drop}
use synthos_collective.Chain.Blocks.Branch.{as_final, Continues}
use synthos_collective.Chain.Blocks.Switch.{Replays, Holds, Outcome, new_blocks, try_reorg-Outcome}

Continues-Numbered :
    (hash : String) (height : ℕ) (bs : List Block)
    → height + length bs < u64_mod
    → Continues hash height bs
    → Numbered (suc height) bs
Continues-Numbered hash height [] small h = tt
Continues-Numbered hash height (b ∷ rest) small (link, up, goes_on) =
    let next : b.header.height ≡ suc height =
      up ∙ add64_exact height 1 (omega arith) ∙ omega arith in
    (next, rw (sym next) (Continues-Numbered b.hash b.header.height rest (omega arith) goes_on))

as_final-Numbered :
    (height : ℕ) (xs ys : List Block)
    → Numbered height (xs ++ ys)
    → Numbered height (xs ++ map as_final ys)
as_final-Numbered height [] [] all = tt
as_final-Numbered height [] (y ∷ ys) (here, all) = (here, as_final-Numbered (suc height) [] ys all)
as_final-Numbered height (x ∷ xs) ys (here, all) = (here, as_final-Numbered (suc height) xs ys all)

length-map : (bs : List Block) → length (map as_final bs) ≡ length bs
length-map [] = refl
length-map (b ∷ bs) = omega (arith, length-map bs)

length-drop_le : (n : ℕ) (bs : List Block) → length (drop n bs) ≤ length bs
length-drop_le zero bs = omega arith
length-drop_le (suc n) [] = omega arith
length-drop_le (suc n) (b ∷ bs) = omega (arith, length-drop_le n bs)

-- The genesis block anchors the replay on a chain that was never trimmed.
genesis_anchor :
    (c : Chain) (b : Block)
    → c.hot_window_start ≡ 0
    → Numbered 0 c.blocks
    → hot_window_base_block_of c ≡ some b
    → b.header.height ≡ 0
unfolding hot_window_base_block_of
genesis_anchor c b start all h = first c.blocks all (rw start at h)
  where
    first : (bs : List Block) → Numbered 0 bs → head_block bs ≡ some b → b.header.height ≡ 0
    first [] none_ e = ground arith
    first (a ∷ rest) (here, rest_) e = ground arith

module _ (crypto : Crypto) (hashing : Hashing) (now fork : ℕ) (candidate : List Block) where
  new_blocks-Numbered :
      (c : Chain) (b : Block)
      → fork + length candidate < u64_mod
      → b.header.height ≡ 0
      → Continues b.hash b.header.height (agreed_prefix fork c ++ candidate)
      → Numbered 1 (new_blocks crypto hashing now fork candidate c)
        × (length (new_blocks crypto hashing now fork candidate c) < u64_mod)
  new_blocks-Numbered c b small low goes_on =
      let prefix = agreed_prefix fork c in
      let few : length prefix ≤ fork = omega (
        arith,
        length-drop_le (prefix_start c) (take (fork - c.hot_window_start) c.blocks),
        length-take (fork - c.hot_window_start) c.blocks,
      ) in
      let sum = length-append prefix candidate in
      let all : Numbered 1 (prefix ++ candidate) =
        subst (λ (n : ℕ). Numbered (suc n) (prefix ++ candidate)) low
          (Continues-Numbered b.hash b.header.height (prefix ++ candidate) (omega arith) goes_on) in
      (
        as_final-Numbered 1 prefix candidate all,
        omega (arith, length-append prefix (map as_final candidate), length-map candidate),
      )

  held :
      (c d : Chain)
      → c.hot_window_start ≡ 0
      → Numbered 1 (new_blocks crypto hashing now fork candidate c)
      → length (new_blocks crypto hashing now fork candidate c) < u64_mod
      → Holds crypto hashing now fork candidate c d
      → Numbered (suc d.hot_window_start) d.blocks
  held c d start all few (inl (by, at)) = rw (by, at ∙ start) all
  held c d start all few (inr (low, by, at)) =
      let whole = new_blocks crypto hashing now fork candidate c in
      let excess = length whole - c.max_hot_blocks in
      let exact = add64_exact c.hot_window_start excess (omega arith) in
      let above : 1 + excess ≡ suc d.hot_window_start = omega arith in
      rw by
        (subst (λ (n : ℕ). Numbered n (drop excess whole)) above (Numbered-drop 1 excess whole all))

  switched :
      (c : Chain) (o : Result Bool × Chain)
      → o.0 ≡ ok true
      → Outcome crypto hashing now fork candidate c o
      → Replays crypto hashing now fork candidate c o.1.state
        × Holds crypto hashing now fork candidate c o.1
  switched c (ok true, d) e (heavy, replays, holds) = (replays, holds)
  switched c (ok false, d) e out = ground arith
  switched c (err x, d) e out = ground arith

  -- On a chain that never trimmed its window, whose blocks are numbered from 0, and for a fork height
  -- and a length of the branch whose sum fits in 64 bits, every switch leaves blocks that are
  -- numbered from one above the start of the window: the genesis block is gone, and each block is at
  -- the index of the one before it.
  pub try_reorg-Numbered :
      (c : Chain)
      → c.hot_window_start ≡ 0
      → fork + length candidate < u64_mod
      → Numbered 0 c.blocks
      → (try_reorg crypto hashing now fork candidate c).0 ≡ ok true
      → let c' = (try_reorg crypto hashing now fork candidate c).1 in
        Numbered (suc c'.hot_window_start) c'.blocks
  try_reorg-Numbered c start small numbered reported =
      let out = try_reorg-Outcome crypto hashing now fork candidate c in
      let ((base_state, base_block, based, anchored, ran, steps, goes_on), holds) =
        switched c (try_reorg crypto hashing now fork candidate c) reported out in
      let low = genesis_anchor c base_block start numbered anchored in
      let (all, few) = new_blocks-Numbered c base_block small low goes_on in
      held c (try_reorg crypto hashing now fork candidate c).1 start all few holds
