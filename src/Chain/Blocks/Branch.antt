-- ===== src/Chain/Blocks/Branch.antt =====
-- chain.go: what replaying a branch through FinalizeBlock gives, in terms of its blocks alone.
use synthos_collective.Prelude.{
  ℕ, ◌≡◌, refl, sym, ap, ◌∙◌, inl, inr, some, List, [], ◌∷◌, ◌++◌, map, length, drop, arith, true,
  nat_eq, String,
}
use synthos_collective.Words.{add64}
use synthos_collective.Chain.Types.{State}
use synthos_collective.Chain.Monad.{ok, Result-cases}
use synthos_collective.Chain.Execution.{Crypto}
use synthos_collective.Chain.Blocks.Types.{Block, Chain, Hashing, Rules, rules_of, last, tip}
use synthos_collective.Chain.Blocks.Transition.{block_state}
use synthos_collective.Chain.Blocks.Window.{advance_checkpoint}
use synthos_collective.Chain.Blocks.Finality.{finalize_block, commit_block, remove_txs}
use synthos_collective.Chain.Blocks.Reorg.{replay_blocks}
use synthos_collective.Chain.Blocks.History.{check_block-follows, finalize_path, trim_path}

abbrev pub as_final : Block → Block
as_final b = record b { finalized = true }

-- Every block names the hash of the one before it and is one higher, from a hash and a height on.
abbrev pub Continues : String → ℕ → List Block → Type 0
Continues hash height [] = Unit
Continues hash height (b ∷ rest) =
    (b.header.parent_hash ≡ hash)
    × (b.header.height ≡ add64 height 1)
    × Continues b.hash b.header.height rest

append_nil : (bs : List Block) → bs ++ [] ≡ bs
append_nil [] = refl
append_nil (b ∷ bs) = ap (λ (xs : List Block). b ∷ xs) (append_nil bs)

append_assoc : (xs ys zs : List Block) → (xs ++ ys) ++ zs ≡ xs ++ (ys ++ zs)
append_assoc [] ys zs = refl
append_assoc (x ∷ xs) ys zs = ap (λ (bs : List Block). x ∷ bs) (append_assoc xs ys zs)

last-append : (bs : List Block) (b : Block) → last (bs ++ (b ∷ [])) ≡ some b
last-append [] b = refl
last-append (a ∷ []) b = refl
last-append (a ∷ (c ∷ rest)) b = last-append (c ∷ rest) b

pub drop-as_final :
    (xs ys : List Block) → drop (length xs) (map as_final (xs ++ ys)) ≡ map as_final ys
drop-as_final [] ys = refl
drop-as_final (x ∷ xs) ys = drop-as_final xs ys

module _ (crypto : Crypto) (hashing : Hashing) (now : ℕ) where
  -- The chain that a commit leaves where the window has no limit.
  abbrev grown : Block → State → Chain → Chain
  grown b next c = record c {
    state = next;
    dex = next.dex_pools;
    mempool = remove_txs crypto b.txs c.mempool;
    blocks = c.blocks ++ (as_final b ∷ []);
  }

  unlimited_commit :
      (b : Block) (next : State) (c : Chain)
      → c.max_hot_blocks ≡ 0
      → commit_block crypto b next c ≡ grown b next c
  unfolding commit_block
  unlimited_commit b next c all = elim (trim_path crypto (grown b next c)) [
    | inl by ↦ by
    | inr (mid, low, by) ↦ ground arith
  ]

  replayed_rest :
      (b : Block) (rest : List Block) (d e : Chain)
      → (finalize_block crypto hashing now b d).0 ≡ ok tt
      → replay_blocks crypto hashing now (b ∷ rest) d ≡ ok e
      → replay_blocks crypto hashing now rest (finalize_block crypto hashing now b d).1 ≡ ok e
  unfolding replay_blocks
  replayed_rest b rest d e fine h = ground (arith, fine, h)

  advanced_rest :
      (r : Rules) (b : Block) (rest : List Block) (s next : State)
      → block_state crypto r b s ≡ ok next
      → advance_checkpoint crypto r (b ∷ rest) s ≡ advance_checkpoint crypto r rest next
  unfolding advance_checkpoint
  advanced_rest r b rest s next ran = rw (ran, advance_checkpoint) refl

  -- A branch that replays continues the tip, runs from the state to the state that it leads to, and
  -- is added to the blocks as final.
  pub replay_blocks-Continues :
      (bs : List Block) (p : Block) (d e : Chain)
      → d.max_hot_blocks ≡ 0
      → tip d ≡ some p
      → replay_blocks crypto hashing now bs d ≡ ok e
      → (advance_checkpoint crypto (rules_of d) bs d.state ≡ ok e.state)
        × (e.blocks ≡ d.blocks ++ map as_final bs)
        × Continues p.hash p.header.height bs
  unfolding replay_blocks advance_checkpoint
  replay_blocks-Continues [] p d e all found h =
      let same : d ≡ e = ground (arith, h) in
      (
        ap (λ (c : Chain). ok c.state) same,
        sym (append_nil d.blocks ∙ ap (λ (c : Chain). c.blocks) same),
        tt,
      )
  replay_blocks-Continues (b ∷ rest) p d e all found h =
      elim (Result-cases (finalize_block crypto hashing now b d).0) [
        | inl (x, bad) ↦ ground (arith, bad)
        | inr (u, fine) ↦ elim (finalize_path crypto hashing now b d) [
          | inl (same, refused) ↦ ground (arith, refused, fine)
          | inr (next, checked, ran, by) ↦
              let (parent, there, link, up) = check_block-follows crypto hashing now b d checked in
              let is_p : parent ≡ p = ground (arith, found, there) in
              let grew = by ∙ unlimited_commit b next d all in
              let later : replay_blocks crypto hashing now rest (grown b next d) ≡ ok e =
                ap (replay_blocks crypto hashing now rest) (sym grew)
                ∙ replayed_rest b rest d e fine h in
              let (steps, added, goes_on) =
                replay_blocks-Continues rest (as_final b) (grown b next d) e all
                  (last-append d.blocks (as_final b)) later in
              (
                advanced_rest (rules_of d) b rest d.state next ran ∙ steps,
                added ∙ append_assoc d.blocks (as_final b ∷ []) (map as_final rest),
                (
                  link ∙ ap (λ (x : Block). x.hash) is_p,
                  up ∙ ap (λ (x : Block). add64 x.header.height 1) is_p,
                  goes_on,
                ),
              )
        ]
      ]
