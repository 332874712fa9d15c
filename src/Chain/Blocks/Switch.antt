-- ===== src/Chain/Blocks/Switch.antt =====
-- chain.go: what TryReorg does to the chain.
use synthos_collective.Prelude.{
  subst, false, sum_by, map, sym, ℕ, suc, ◌-◌, ◌≡◌, ◌<◌, ◌⊎◌, refl, ap, ◌∙◌, inl, inr, none, some,
  Bool, List, [], ◌++◌, length, drop, arith, true, Bool-cases, Option-cases, nat_eq,
}
use synthos_collective.Words.{add64}
use synthos_collective.Chain.Errors.{ChainError, Error, chain}
use synthos_collective.Chain.Types.{State}
use synthos_collective.Chain.Monad.{Result, ok, err, Result-cases}
use synthos_collective.Chain.Execution.{Crypto}
use synthos_collective.Chain.Blocks.Types.{Block, Chain, Hashing, Rules, rules_of}
use synthos_collective.Chain.Blocks.Window.{
  hot_window_base_state_of, hot_window_base_block_of, advance_checkpoint, trim_hot_window,
}
use synthos_collective.Chain.Blocks.Authority.{verified_approval_count}
use synthos_collective.Chain.Blocks.History.{trim_path}
use synthos_collective.Chain.Blocks.Branch.{
  as_final, Continues, drop-as_final, replay_blocks-Continues,
}
use synthos_collective.Chain.Blocks.Reorg.{
  scratch_chain, agreed_prefix, current_tail, check_fork, is_heavier, score_of, replay_blocks,
  swap_branch, replay_branch, try_reorg,
}

module _ (crypto : Crypto) (hashing : Hashing) (now fork : ℕ) (candidate : List Block) where
  -- The approvals that a branch's blocks carry, by the keys of a chain.
  abbrev approvals : Chain → List Block → ℕ
  approvals c = sum_by (verified_approval_count crypto.verify c.validator_keys)

  -- The candidates carry more approvals than the blocks that they replace, or as many and are more.
  abbrev pub Heavier : Chain → Type 0
  Heavier c =
      let ours = current_tail fork c in
      (approvals c ours < approvals c candidate)
      ⊎ ((approvals c candidate ≡ approvals c ours) × (length ours < length candidate))

  -- What a block does to a state in the replay: the chain's own rules, without its corrections.
  abbrev pub replay_rules : Chain → Rules
  replay_rules c = record (rules_of c) { corrections = [] }

  -- The agreed blocks and the candidates pass FinalizeBlock from the anchor on, name their parents
  -- and count up from it, and lead from the state there to a final state.
  abbrev pub Replays : Chain → State → Type 0
  Replays c final =
      let bs = agreed_prefix fork c ++ candidate in
      (base_state : State) × (base_block : Block) × (hot_window_base_state_of c ≡ some base_state)
      × (hot_window_base_block_of c ≡ some base_block)
      × ((replayed : Chain) × (replay_blocks crypto hashing now bs
              (scratch_chain base_state base_block c)
            ≡ ok replayed))
      × (advance_checkpoint crypto (replay_rules c) bs base_state ≡ ok final)
      × Continues base_block.hash base_block.header.height bs

  -- The agreed blocks and then the candidates, as final blocks.
  abbrev pub new_blocks : Chain → List Block
  new_blocks c = agreed_prefix fork c ++ map as_final candidate

  -- All of the new blocks are in memory, or as many of the last ones as the window takes, which
  -- moved by the others.
  abbrev pub Holds : Chain → Chain → Type 0
  Holds c c' =
      let excess = length (new_blocks c) - c.max_hot_blocks in
      ((c'.blocks ≡ new_blocks c) × (c'.hot_window_start ≡ c.hot_window_start))
      ⊎ ((0 < c.max_hot_blocks)
          × (c'.blocks ≡ drop excess (new_blocks c))
          × (c'.hot_window_start ≡ add64 c.hot_window_start excess))

  -- A switch replaces the blocks and the state; without one nothing changes, and without an error
  -- there is none only where the candidates are not heavier.
  abbrev pub Outcome : Chain → Result Bool × Chain → Type 0
  Outcome c (ok true, c') = Heavier c × Replays c c'.state × Holds c c'
  Outcome c (ok false, c') = (c' ≡ c) × ¬ Heavier c
  Outcome c (err e, c') = c' ≡ c

  heavier : (c : Chain) → is_heavier crypto c candidate (current_tail fork c) ≡ true → Heavier c
  unfolding is_heavier score_of
  heavier c h = ground (arith, h)

  not-Heavier :
      (c : Chain) → is_heavier crypto c candidate (current_tail fork c) ≡ false → ¬ Heavier c
  unfolding is_heavier score_of
  not-Heavier c h (inl more) = ground (arith, h, more)
  not-Heavier c h (inr (same, longer)) = ground (arith, h, same, longer)

  -- The chain with the new blocks and the replay's state, before the trim.
  abbrev swapped : Chain → State → Chain
  swapped c final = record c { blocks = new_blocks c; state = final }

  swap_branch-swapped :
      (c replayed : Chain)
      → drop (suc (length (agreed_prefix fork c))) replayed.blocks ≡ map as_final candidate
      → swap_branch crypto (agreed_prefix fork c) replayed c
        ≡ trim_hot_window crypto (swapped c replayed.state)
  unfolding swap_branch
  swap_branch-swapped c replayed fresh =
      ap
        (λ (bs : List Block).
          trim_hot_window crypto
            (record c { blocks = agreed_prefix fork c ++ bs; state = replayed.state }))
        fresh

  trim-Holds :
      (c : Chain) (final : State)
      → let c' = trim_hot_window crypto (swapped c final) in Holds c c' × (c'.state ≡ final)
  trim-Holds c final = elim (trim_path crypto (swapped c final)) [
    | inl by ↦
        subst (λ (d : Chain). Holds c d × (d.state ≡ final)) (sym by) (inl (refl, refl), refl)
    | inr (mid, low, by) ↦
        subst (λ (d : Chain). Holds c d × (d.state ≡ final)) (sym by) (inr (low, refl, refl), refl)
  ]

  ran-Outcome :
      (base_state : State) (base_block : Block) (c replayed : Chain)
      → hot_window_base_state_of c ≡ some base_state
      → hot_window_base_block_of c ≡ some base_block
      → is_heavier crypto c candidate (current_tail fork c) ≡ true
      → replay_blocks crypto hashing now
          (agreed_prefix fork c ++ candidate)
          (scratch_chain base_state base_block c)
        ≡ ok replayed
      → Outcome c (ok true, swap_branch crypto (agreed_prefix fork c) replayed c)
  unfolding scratch_chain
  ran-Outcome base_state base_block c replayed based anchored heavy ran =
      let prefix = agreed_prefix fork c in
      let (steps, added, goes_on) =
        replay_blocks-Continues crypto hashing now (prefix ++ candidate) base_block
          (scratch_chain base_state base_block c) replayed refl refl ran in
      let trimmed =
        swap_branch-swapped c replayed
          (ap (drop (suc (length prefix))) added ∙ drop-as_final prefix candidate) in
      let (holds, same) = trim-Holds c replayed.state in
      subst (λ (d : Chain). Outcome c (ok true, d)) (sym trimmed)
        (
          heavier c heavy,
          (
            base_state,
            base_block,
            based,
            anchored,
            (replayed, ran),
            steps ∙ ap ok (sym same),
            goes_on,
          ),
          holds,
        )

  branch-Outcome :
      (base_state : State) (base_block : Block) (c : Chain)
      → hot_window_base_state_of c ≡ some base_state
      → hot_window_base_block_of c ≡ some base_block
      → Outcome c (replay_branch crypto hashing now fork candidate base_state base_block c)
  unfolding replay_branch
  branch-Outcome base_state base_block c based anchored =
      elim (Bool-cases (is_heavier crypto c candidate (current_tail fork c))) [
        | inr light ↦
            let by : replay_branch crypto hashing now fork candidate base_state base_block c
                ≡ (ok false, c) =
              rw (light, replay_branch) refl in
            subst (Outcome c) (sym by) (refl, not-Heavier c light)
        | inl heavy ↦
            elim (Result-cases (
              replay_blocks crypto hashing now (agreed_prefix fork c ++ candidate)
                (scratch_chain base_state base_block c))) [
                  | inl (e, bad) ↦
                      let by : replay_branch crypto hashing now fork candidate base_state base_block
                            c
                          ≡ (err e, c) =
                        rw (heavy, bad, replay_branch) refl in
                      subst (Outcome c) (sym by) refl
                  | inr (replayed, ran) ↦
                      let by : replay_branch crypto hashing now fork candidate base_state base_block
                            c
                          ≡ (ok true, swap_branch crypto (agreed_prefix fork c) replayed c) =
                        rw (heavy, ran, replay_branch) refl in
                      subst (Outcome c) (sym by)
                        (ran-Outcome base_state base_block c replayed based anchored heavy ran)
                ]
      ]

  reorg_anchored :
      (c : Chain) (base_state : State) (base_block : Block)
      → check_fork fork candidate c ≡ ok tt
      → hot_window_base_state_of c ≡ some base_state
      → hot_window_base_block_of c ≡ some base_block
      → try_reorg crypto hashing now fork candidate c
        ≡ replay_branch crypto hashing now fork candidate base_state base_block c
  unfolding try_reorg
  reorg_anchored c base_state base_block fine based anchored =
      rw (fine, based, anchored, try_reorg) refl

  unanchored :
      (c : Chain)
      → check_fork fork candidate c ≡ ok tt
      → (hot_window_base_state_of c ≡ none) ⊎ (hot_window_base_block_of c ≡ none)
      → try_reorg crypto hashing now fork candidate c
        ≡ (err (chain ChainError.reorg_unavailable), c)
  unfolding try_reorg
  unanchored c fine (inl missing) = rw (fine, missing, try_reorg) refl
  unanchored c fine (inr missing) = elim (Option-cases (hot_window_base_state_of c)) [
    | inl also ↦ rw (fine, also, try_reorg) refl
    | inr (s, based) ↦ rw (fine, based, missing, try_reorg) refl
  ]

  unchecked :
      (c : Chain) (e : Error)
      → check_fork fork candidate c ≡ err e
      → try_reorg crypto hashing now fork candidate c ≡ (err e, c)
  unfolding try_reorg
  unchecked c e bad = rw (bad, try_reorg) refl

  -- TryReorg reports a switch, no switch, or an error, and without a switch nothing changes. Where it
  -- reports none, the candidates do not carry more approvals than the blocks that they replace, nor
  -- as many in a longer branch. Where it switches they do, the agreed blocks and the candidates pass
  -- FinalizeBlock from the anchor of the window on, name their parents, count up, and lead from the
  -- anchor's state to the state of the chain, under its rules without corrections; and its blocks in
  -- memory are the agreed ones and the candidates as final blocks, or the last of these, as many as
  -- the window takes, with its start moved by the number of the others.
  pub try_reorg-Outcome : (c : Chain) → Outcome c (try_reorg crypto hashing now fork candidate c)
  try_reorg-Outcome c = elim (Result-cases (check_fork fork candidate c)) [
    | inl (e, bad) ↦ subst (Outcome c) (sym (unchecked c e bad)) refl
    | inr (u, fine) ↦ elim (Option-cases (hot_window_base_state_of c)) [
      | inl missing ↦ subst (Outcome c) (sym (unanchored c fine (inl missing))) refl
      | inr (base_state, based) ↦ elim (Option-cases (hot_window_base_block_of c)) [
        | inl missing ↦ subst (Outcome c) (sym (unanchored c fine (inr missing))) refl
        | inr (base_block, anchored) ↦
            subst (Outcome c) (sym (reorg_anchored c base_state base_block fine based anchored))
              (branch-Outcome base_state base_block c based anchored)
      ]
    ]
  ]
