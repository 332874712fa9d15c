-- ===== src/Chain/Blocks/History.antt =====
-- chain.go: what every run of calls keeps of the blocks: heights, links to the parent, and the
-- state as their replay.
use synthos_collective.Prelude.{
  ℕ, zero, suc, ◌+◌, ◌-◌, ◌≡◌, ◌≢◌, ◌<◌, ◌≤◌, refl, sym, ◌∙◌, ◌⊎◌, inl, inr, some, Option, List, [],
  ◌∷◌, ◌++◌, length, length-append, take, drop, arith, Bool-cases, Option-cases, true, not, ◌||◌,
  ◌==◌, nat_eq, string_eq, eq_iff, get_elem?, String,
}
use synthos_collective.Words.{u64_mod, add64, add64_exact}
use synthos_collective.Dict.{Dict, insert}
use synthos_collective.Chain.Types.{State, Tx}
use synthos_collective.Chain.Monad.{ok, Result-cases}
use synthos_collective.Chain.Execution.{Crypto}
use synthos_collective.Chain.Blocks.Types.{Block, Chain, Hashing, Rules, rules_of, last, tip}
use synthos_collective.Chain.Blocks.Transition.{block_state}
use synthos_collective.Chain.Blocks.Window.{
  hot_window_base_state_of, advance_checkpoint, trim_hot_window, set_hot_window,
}
use synthos_collective.Chain.Blocks.Mempool.{submit_tx, admit}
use synthos_collective.Chain.Blocks.Finality.{
  check_block, validate_block, finalize_block, commit_block, root_differs, remove_txs,
}
use synthos_collective.Chain.Blocks.Checkpoint.{IsReplay, trim-IsReplay, advance-append}

-- The heights count up from `h`.
abbrev pub Numbered : ℕ → List Block → Type 0
Numbered h [] = Unit
Numbered h (b ∷ rest) = (b.header.height ≡ h) × Numbered (suc h) rest

-- Every block names the hash of the one before it.
abbrev pub Linked : List Block → Type 0
Linked [] = Unit
Linked (b ∷ []) = Unit
Linked (b ∷ (c ∷ rest)) = (c.header.parent_hash ≡ b.hash) × Linked (c ∷ rest)

Numbered-append :
    (h : ℕ) (bs : List Block) (b : Block)
    → Numbered h bs
    → b.header.height ≡ h + length bs
    → Numbered h (bs ++ (b ∷ []))
Numbered-append h [] b all next = (omega arith, tt)
Numbered-append h (c ∷ rest) b (here, all) next =
    (here, Numbered-append (suc h) rest b all (omega arith))

pub Numbered-drop : (h n : ℕ) (bs : List Block) → Numbered h bs → Numbered (h + n) (drop n bs)
Numbered-drop h zero bs all = let bare : h + 0 ≡ h = omega arith in rw bare all
Numbered-drop h (suc n) [] all = tt
Numbered-drop h (suc n) (b ∷ rest) (here, all) =
    let same : suc h + n ≡ h + suc n = omega arith in
    rw (sym same) (Numbered-drop (suc h) n rest all)

pub last-height :
    (h : ℕ) (bs : List Block) (t : Block)
    → Numbered h bs
    → last bs ≡ some t
    → t.header.height + 1 ≡ h + length bs
last-height h [] t all e = ground arith
last-height h (b ∷ []) t (here, all) e = ground arith
last-height h (b ∷ (c ∷ rest)) t (here, all) e =
    omega (arith, last-height (suc h) (c ∷ rest) t all e)

Linked-append :
    (bs : List Block) (p b : Block)
    → last bs ≡ some p
    → b.header.parent_hash ≡ p.hash
    → Linked bs
    → Linked (bs ++ (b ∷ []))
Linked-append [] p b e link all = ground arith
Linked-append (c ∷ []) p b e link all = (ground arith, tt)
Linked-append (c ∷ (d ∷ rest)) p b e link (first, all) =
    (first, Linked-append (d ∷ rest) p b e link all)

Linked-drop : (n : ℕ) (bs : List Block) → Linked bs → Linked (drop n bs)
Linked-drop zero bs all = all
Linked-drop (suc n) [] all = tt
Linked-drop (suc zero) (b ∷ []) all = tt
Linked-drop (suc (suc n)) (b ∷ []) all = tt
Linked-drop (suc n) (b ∷ (c ∷ rest)) (first, all) = Linked-drop n (c ∷ rest) all

length-drop : (n : ℕ) (bs : List Block) → length (drop n bs) ≡ length bs - n
length-drop zero bs = omega arith
length-drop (suc n) [] = omega arith
length-drop (suc n) (b ∷ rest) = omega (arith, length-drop n rest)

-- One more than the height of the last block.
abbrev pub next_height : Chain → ℕ
next_height c = c.hot_window_start + length c.blocks

-- The blocks of a chain and its state belong together.
abbrev pub IsHistory : Crypto → Chain → Type 0
IsHistory crypto c = Numbered c.hot_window_start c.blocks × Linked c.blocks × IsReplay crypto c

module _ (crypto : Crypto) where
  -- A trim leaves the chain, or drops its oldest blocks.
  pub trim_path :
      (c : Chain)
      → (trim_hot_window crypto c ≡ c)
        ⊎ ((mid : State) × (0 < c.max_hot_blocks)
            × (trim_hot_window crypto c ≡ record c {
              hot_window_base_state = some mid;
              hot_window_base_block = get_elem? c.blocks (length c.blocks - c.max_hot_blocks - 1);
              blocks = drop (length c.blocks - c.max_hot_blocks) c.blocks;
              hot_window_start = add64 c.hot_window_start (length c.blocks - c.max_hot_blocks);
            }))
  unfolding trim_hot_window
  trim_path c =
      let excess = length c.blocks - c.max_hot_blocks in
      elim (Bool-cases (c.max_hot_blocks == 0 || excess == 0)) [
        | inl h ↦ inl (rw h refl)
        | inr h ↦ elim (Option-cases (hot_window_base_state_of c)) [
          | inl missing ↦ inl (rw (h, missing) refl)
          | inr (base, based) ↦
              elim (Result-cases
                (advance_checkpoint crypto (rules_of c) (take excess c.blocks) base)) [
                  | inl (e, bad) ↦ inl (rw (h, based, bad) refl)
                  | inr (mid, moved) ↦ inr (mid, ground (arith, h), rw (h, based, moved) refl)
                ]
        ]
      ]

  trim-Numbered :
      (c : Chain)
      → next_height c < u64_mod
      → Numbered c.hot_window_start c.blocks
      → let t = trim_hot_window crypto c in
        Numbered t.hot_window_start t.blocks × (next_height t ≡ next_height c)
  trim-Numbered c small all = elim (trim_path c) [
    | inl by ↦ rw by (all, refl)
    | inr (mid, low, by) ↦
        let excess = length c.blocks - c.max_hot_blocks in
        let exact = add64_exact c.hot_window_start excess (omega arith) in
        rw (by, exact)
          (
            Numbered-drop c.hot_window_start excess c.blocks all,
            omega (arith, length-drop excess c.blocks),
          )
  ]

  trim-Linked : (c : Chain) → Linked c.blocks → Linked (trim_hot_window crypto c).blocks
  trim-Linked c all = elim (trim_path c) [
    | inl by ↦ rw by all
    | inr (mid, low, by) ↦ rw by (Linked-drop (length c.blocks - c.max_hot_blocks) c.blocks all)
  ]

  trim-IsHistory :
      (c : Chain)
      → next_height c < u64_mod
      → IsHistory crypto c
      → IsHistory crypto (trim_hot_window crypto c)
        × (next_height (trim_hot_window crypto c) ≡ next_height c)
  trim-IsHistory c small (numbered, linked, replay) =
      let (kept, same) = trim-Numbered c small numbered in
      ((kept, trim-Linked c linked, trim-IsReplay crypto c small replay), same)

  -- What a block that passes the checks is: the next one after the tip.
  pub check_block-follows :
      (hashing : Hashing) (now : ℕ) (b : Block) (c : Chain)
      → check_block crypto hashing now true b c ≡ ok tt
      → (parent : Block) × (tip c ≡ some parent)
        × (b.header.parent_hash ≡ parent.hash)
        × (b.header.height ≡ add64 parent.header.height 1)
  unfolding check_block
  check_block-follows hashing now b c h = elim (Option-cases (tip c)) [
    | inl missing ↦ ground (arith, missing)
    | inr (parent, found) ↦
        elim (Bool-cases (
          not (b.header.parent_hash == parent.hash)
          || not (b.header.height == add64 parent.header.height 1))) [
            | inl other ↦ ground (arith, found, other)
            | inr next ↦ (
              parent,
              found,
              ground (arith, next, eq_iff b.header.parent_hash parent.hash),
              ground (arith, next),
            )
          ]
  ]

  -- A call of FinalizeBlock fails and leaves the chain, or commits a block that passed the checks.
  pub finalize_path :
      (hashing : Hashing) (now : ℕ) (b : Block) (c : Chain)
      → let (r, c') = finalize_block crypto hashing now b c in
        ((c' ≡ c) × (r ≢ ok tt))
        ⊎ ((next : State) × (check_block crypto hashing now true b c ≡ ok tt)
            × (block_state crypto (rules_of c) b c.state ≡ ok next)
            × (c' ≡ commit_block crypto b next c))
  unfolding finalize_block validate_block
  finalize_path hashing now b c = elim (Result-cases (check_block crypto hashing now true b c)) [
    | inl (e, bad) ↦ inl (ground (arith, bad), λ h. ground (arith, bad))
    | inr (u, fine) ↦ elim (Result-cases (block_state crypto (rules_of c) b c.state)) [
      | inl (e, bad) ↦ inl (ground (arith, fine, bad), λ h. ground (arith, fine, bad))
      | inr (next, ran) ↦ elim (Bool-cases (root_differs crypto hashing c b next)) [
        | inl differs ↦
            inl (ground (arith, fine, ran, differs), λ h. ground (arith, fine, ran, differs))
        | inr agrees ↦ inr (next, fine, ran, ground (arith, fine, ran, agrees))
      ]
    ]
  ]

  -- The mark of a final block is not read by a replay.
  finalized-block_state :
      (r : Rules) (b : Block) (s : State)
      → block_state crypto r (record b { finalized = true }) s ≡ block_state crypto r b s
  unfolding block_state
  finalized-block_state r b s = refl

  committed-replay :
      (r : Rules) (b : Block) (bs : List Block) (base s next : State)
      → advance_checkpoint crypto r bs base ≡ ok s
      → block_state crypto r b s ≡ ok next
      → advance_checkpoint crypto r (bs ++ (record b { finalized = true } ∷ [])) base ≡ ok next
  unfolding advance_checkpoint
  committed-replay r b bs base s next replayed ran =
      advance-append crypto r bs (record b { finalized = true } ∷ []) base s replayed
      ∙ rw (finalized-block_state r b s ∙ ran, advance_checkpoint) refl

  committed-IsHistory :
      (b parent : Block) (next : State) (c : Chain)
      → next_height c + 1 < u64_mod
      → IsHistory crypto c
      → tip c ≡ some parent
      → b.header.parent_hash ≡ parent.hash
      → b.header.height ≡ add64 parent.header.height 1
      → block_state crypto (rules_of c) b c.state ≡ ok next
      → IsHistory crypto (commit_block crypto b next c)
        × (next_height (commit_block crypto b next c) ≡ next_height c + 1)
  unfolding commit_block hot_window_base_state_of
  committed-IsHistory b parent next c small (numbered, linked, (base, based, replayed)) found link
        up ran =
      let final : Block = record b { finalized = true } in
      let grown = record c {
        state = next;
        dex = next.dex_pools;
        mempool = remove_txs crypto b.txs c.mempool;
        blocks = c.blocks ++ (final ∷ []);
      } in
      let height = last-height c.hot_window_start c.blocks parent numbered found in
      let longer = length-append c.blocks (final ∷ []) in
      let more = add64_exact parent.header.height 1 (omega arith) in
      let (kept, same) = trim-IsHistory grown (omega arith) (
        Numbered-append c.hot_window_start c.blocks final numbered (omega arith),
        Linked-append c.blocks parent final found link linked,
        (base, based, committed-replay (rules_of c) b c.blocks base c.state next replayed ran),
      ) in
      (kept, omega arith)

  finalize-IsHistory :
      (hashing : Hashing) (now : ℕ) (b : Block) (c : Chain)
      → next_height c + 1 < u64_mod
      → IsHistory crypto c
      → let c' = (finalize_block crypto hashing now b c).1 in
        IsHistory crypto c' × (next_height c' ≤ next_height c + 1)
  finalize-IsHistory hashing now b c small history = elim (finalize_path hashing now b c) [
    | inl (by, refused) ↦ rw by (history, omega arith)
    | inr (next, checked, ran, by) ↦
        let (parent, found, link, up) = check_block-follows hashing now b c checked in
        let (kept, more) = committed-IsHistory b parent next c small history found link up ran in
        rw by (kept, omega arith)
  ]

  -- A submission leaves the chain, or adds to the mempool alone.
  submit_path :
      (now : ℕ) (tx : Tx) (c : Chain)
      → ((submit_tx crypto now tx c).1 ≡ c)
        ⊎ ((submit_tx crypto now tx c).1 ≡ record c { mempool = insert tx.id tx c.mempool })
  unfolding submit_tx
  submit_path now tx c = elim (Result-cases (admit crypto now tx c)) [
    | inl (e, bad) ↦ inl (rw bad refl)
    | inr (u, fine) ↦ inr (rw fine refl)
  ]

  -- The mempool is not part of the history.
  pooled-IsHistory :
      (pool : Dict String Tx) (c : Chain)
      → IsHistory crypto c
      → IsHistory crypto (record c { mempool = pool })
  unfolding hot_window_base_state_of
  pooled-IsHistory pool c (numbered, linked, (base, based, replayed)) =
      (numbered, linked, (base, based, replayed))

  rewindowed-IsHistory :
      (n : ℕ) (reader : Option (ℕ → Option Block)) (c : Chain)
      → IsHistory crypto c
      → IsHistory crypto (record c { max_hot_blocks = n; cold_blocks = reader })
  unfolding hot_window_base_state_of
  rewindowed-IsHistory n reader c (numbered, linked, (base, based, replayed)) =
      (numbered, linked, (base, based, replayed))

-- The calls that a chain serves, `n` of them: a block is offered, a transaction is submitted, or the
-- window is set. Each may be refused.
pub data Run (crypto : Crypto) (hashing : Hashing) (c : Chain) : ℕ → Chain → Type 0 where
  start : Run crypto hashing c 0 c
  offered :
      {n : ℕ} {d : Chain} (now : ℕ) (b : Block)
      → Run crypto hashing c n d
      → Run crypto hashing c (suc n) (finalize_block crypto hashing now b d).1
  submitted :
      {n : ℕ} {d : Chain} (now : ℕ) (tx : Tx)
      → Run crypto hashing c n d
      → Run crypto hashing c (suc n) (submit_tx crypto now tx d).1
  windowed :
      {n : ℕ} {d : Chain} (max_hot_blocks : ℕ) (reader : Option (ℕ → Option Block))
      → Run crypto hashing c n d
      → Run crypto hashing c (suc n) (set_hot_window crypto max_hot_blocks reader d)

module _ (crypto : Crypto) (hashing : Hashing) where
  IsHistory-grows :
      {c d : Chain} {n : ℕ}
      → Run crypto hashing c n d
      → next_height c + n < u64_mod
      → IsHistory crypto c
      → IsHistory crypto d × (next_height d ≤ next_height c + n)
  unfolding set_hot_window
  IsHistory-grows {c} Run.start small history = (history, omega arith)
  IsHistory-grows {c} (Run.offered now b before) small history =
      let (kept, low) = IsHistory-grows before (omega arith) history in
      let (next, more) = finalize-IsHistory crypto hashing now b _ (omega arith) kept in
      (next, omega arith)
  IsHistory-grows {c} (Run.submitted {d = d} now tx before) small history =
      let (kept, low) = IsHistory-grows before (omega arith) history in
      elim (submit_path crypto now tx d) [
        | inl by ↦ rw by (kept, omega arith)
        | inr by ↦ rw by (pooled-IsHistory crypto (insert tx.id tx d.mempool) d kept, omega arith)
      ]
  IsHistory-grows {c} (Run.windowed {d = d} n reader before) small history =
      let (kept, low) = IsHistory-grows before (omega arith) history in
      let (next, same) =
        trim-IsHistory crypto (record d { max_hot_blocks = n; cold_blocks = reader }) (omega arith)
          (rewindowed-IsHistory crypto n reader d kept) in
      (next, omega arith)

  -- From a chain whose blocks are numbered from the start of its window, name their parents, and
  -- replay on its checkpoint to its state, every run of calls that is short enough for its heights
  -- to fit in 64 bits leads to such a chain.
  pub Run-IsHistory :
      {c d : Chain} {n : ℕ}
      → Run crypto hashing c n d
      → next_height c + n < u64_mod
      → IsHistory crypto c
      → IsHistory crypto d
  Run-IsHistory calls small history = (IsHistory-grows calls small history).0
