-- ===== src/Chain/Blocks/Agreement.antt =====
-- chain.go: what BuildBlock builds, the checks of validateBlockLocked accept.
use synthos_collective.Prelude.{
  ℕ, ◌≡◌, ◌≢◌, refl, sym, subst, ap, ◌∙◌, inl, inr, some, List, [], ◌∷◌, ◌++◌, length, All, arith,
  Bool-cases, Option-cases, false, leb, ◌==◌, nat_eq, string_eq, eq_iff, String,
}
use synthos_collective.Words.{add64}
use synthos_collective.Chain.Types.{State, Tx}
use synthos_collective.Chain.Monad.{Action, ok, err, Result-cases}
use synthos_collective.Chain.Execution.{Crypto}
use synthos_collective.Chain.Blocks.Types.{
  Block, Chain, Hashing, Rules, StateCorrection, rules_of, tip,
}
use synthos_collective.Chain.Blocks.Fees.{credit_proposer_fees}
use synthos_collective.Chain.Blocks.Transition.{
  apply_tx_at, replay_txs, block_state, proposer_address, finish_block_state, apply_corrections,
}
use synthos_collective.Chain.Blocks.Building.{
  candidates, select_txs, built_state, candidate_block, build_block, tx_limit, root_of_txs,
}
use synthos_collective.Chain.Blocks.Finality.{check_replay, root_differs}

module _ (apply : Tx → Action State (Unit {0})) where
  -- The candidates that fail, taken in their order from a state, leave it as it was.
  abbrev pub SkipsClean : List Tx → State → Type 0
  SkipsClean [] s = Unit
  SkipsClean (tx ∷ rest) s =
      let (applied, s') = apply tx s in
      let later = SkipsClean rest s' in elim applied [ err _ ↦ (s' ≡ s) × later | ok _ ↦ later ]

  replay-append :
      (taken : List Tx) (tx : Tx) (s t : State)
      → replay_txs apply taken s ≡ ok t
      → (apply tx t).0 ≡ ok tt
      → replay_txs apply (taken ++ (tx ∷ [])) s ≡ ok (apply tx t).1
  unfolding replay_txs
  replay-append [] tx s t h one = ground (arith, h, one)
  replay-append (x ∷ taken) tx s t h one = elim (Result-cases (apply x s).0) [
    | inl (e, bad) ↦ ground (arith, bad)
    | inr (v, fine) ↦
        let rest : replay_txs apply taken (apply x s).1 ≡ ok t = ground (arith, fine, h) in
        rw (fine, replay_txs) (replay-append taken tx (apply x s).1 t rest one)
  ]

  -- What is selected replays to the state that selecting it left.
  select-replay :
      (limit : ℕ) (taken cands : List Tx) (s t : State)
      → replay_txs apply taken s ≡ ok t
      → SkipsClean cands t
      → let (txs, t') = select_txs apply limit taken cands t in replay_txs apply txs s ≡ ok t'
  unfolding select_txs
  select-replay limit taken [] s t h clean = h
  select-replay limit taken (tx ∷ rest) s t h clean = elim (Bool-cases (leb limit (length taken))) [
    | inl full ↦ rw full h
    | inr open_ ↦ elim (Result-cases (apply tx t).0) [
      | inl (e, bad) ↦
          let kept : ((apply tx t).1 ≡ t) × SkipsClean rest (apply tx t).1 =
            rw (bad, SkipsClean) at clean in
          rw (open_, bad)
            (select-replay limit taken rest s (apply tx t).1 (h ∙ ap ok (sym kept.0)) kept.1)
      | inr (v, fine) ↦
          let later : SkipsClean rest (apply tx t).1 = rw (fine, SkipsClean) at clean in
          rw (open_, fine)
            (select-replay limit (taken ++ (tx ∷ [])) rest s (apply tx t).1
              (replay-append taken tx s t h fine) later)
    ]
  ]

-- No correction is due at a height.
abbrev pub NoneDue : ℕ → List StateCorrection → Type 0
NoneDue height = All (λ corr. corr.at_height ≢ height)

corrections_none :
    (corrs : List StateCorrection) (height : ℕ) (s : State)
    → NoneDue height corrs
    → apply_corrections corrs height s ≡ s
unfolding apply_corrections
corrections_none [] height s due = refl
corrections_none (corr ∷ rest) height s (other, due) =
    let skipped : (corr.at_height == height) ≡ false = ground arith in
    rw skipped (corrections_none rest height s due)

module _ (crypto : Crypto) (hashing : Hashing) where
  -- The state that the builder commits to is the one that replaying its block gives.
  built-replay :
      (r : Rules) (b : Block) (s mid final : State)
      → NoneDue b.header.height r.corrections
      → replay_txs (apply_tx_at crypto r b.header.height) b.txs s ≡ ok mid
      → built_state crypto r s b.header.height b.header.proposer_id b.txs mid ≡ ok final
      → block_state crypto r b s ≡ ok final
  unfolding block_state built_state
  built-replay r b s mid final due ran built =
      elim (Result-cases (
        credit_proposer_fees b.txs
          (proposer_address crypto r s b.header.height b.header.proposer_id) mid)) [
            | inl (e, bad) ↦ ground (arith, bad)
            | inr (paid, fine) ↦
                let bare =
                  corrections_none r.corrections b.header.height
                    (finish_block_state r b.header.height paid) due in
                ground (arith, ran, fine, bare, built)
          ]

  -- A block is the next one after the tip, with the hashes of what it carries.
  abbrev pub Extends : Chain → Block → Type 0
  Extends c b =
      (parent : Block) × (tip c ≡ some parent)
      × (b.header.parent_hash ≡ parent.hash)
      × (b.header.height ≡ add64 parent.header.height 1)
      × (hashing.block_hash b.header b.txs ≡ b.hash)
      × (root_of_txs hashing b.txs ≡ b.header.tx_merkle_root)

  same_root :
      (c : Chain) (b : Block) (s : State)
      → hashing.state_root s ≡ b.header.state_root
      → root_differs crypto hashing c b s ≡ false
  same_root c b s e = ground (arith, e, eq_iff (hashing.state_root s) b.header.state_root)

  check_replay-ok :
      (c : Chain) (b : Block) (s : State)
      → block_state crypto (rules_of c) b c.state ≡ ok s
      → hashing.state_root s ≡ b.header.state_root
      → check_replay crypto hashing c b ≡ ok tt
  unfolding check_replay
  check_replay-ok c b s ran root = let fits = same_root c b s root in ground (arith, ran, fits)

  candidate-accepted :
      (now max_tx : ℕ) (id poc : String) (c : Chain) (parent : Block) (final : State)
      → let height = add64 parent.header.height 1 in
        let apply = apply_tx_at crypto (rules_of c) height in
        let (txs, mid) = select_txs apply (tx_limit max_tx) [] (candidates c.mempool) c.state in
        let b = candidate_block hashing now id poc parent txs final in
        tip c ≡ some parent
        → built_state crypto (rules_of c) c.state height id txs mid ≡ ok final
        → NoneDue height c.state_corrections
        → SkipsClean apply (candidates c.mempool) c.state
        → (check_replay crypto hashing c b ≡ ok tt) × Extends c b
  unfolding replay_txs
  candidate-accepted now max_tx id poc c parent final found built due clean =
      let height = add64 parent.header.height 1 in
      let apply = apply_tx_at crypto (rules_of c) height in
      let chosen = select_txs apply (tx_limit max_tx) [] (candidates c.mempool) c.state in
      let b = candidate_block hashing now id poc parent chosen.0 final in
      let ran =
        select-replay apply (tx_limit max_tx) [] (candidates c.mempool) c.state c.state refl
          clean in
      let same = built-replay (rules_of c) b c.state chosen.1 final due ran built in
      (check_replay-ok c b final same refl, (parent, found, refl, refl, refl, refl))

  -- A block that BuildBlock returns is the next one after the tip, carries the hashes of its own
  -- content, and passes the replay of the checks, state root included, where no correction is due
  -- at its height and the candidates that fail leave the state as it was.
  pub build_block-accepted :
      (now max_tx : ℕ) (id poc : String) (c : Chain) (b : Block)
      → build_block crypto hashing now id poc max_tx c ≡ ok b
      → NoneDue b.header.height c.state_corrections
      → SkipsClean (apply_tx_at crypto (rules_of c) b.header.height) (candidates c.mempool) c.state
      → (check_replay crypto hashing c b ≡ ok tt) × Extends c b
  unfolding build_block
  build_block-accepted now max_tx id poc c b h due clean = elim (Option-cases (tip c)) [
    | inl missing ↦ ground (arith, missing)
    | inr (parent, found) ↦
        let height = add64 parent.header.height 1 in
        let apply = apply_tx_at crypto (rules_of c) height in
        let chosen = select_txs apply (tx_limit max_tx) [] (candidates c.mempool) c.state in
        elim (Result-cases (built_state crypto (rules_of c) c.state height id chosen.0 chosen.1)) [
          | inl (e, bad) ↦ ground (arith, found, bad)
          | inr (final, built) ↦
              let whole = candidate_block hashing now id poc parent chosen.0 final in
              let is_b : whole ≡ b = ground (arith, found, built, h) in
              subst (λ (x : Block). (check_replay crypto hashing c x ≡ ok tt) × Extends c x) is_b
                (candidate-accepted now max_tx id poc c parent final found built
                  (subst (λ (x : Block). NoneDue x.header.height c.state_corrections) (sym is_b)
                    due)
                  (subst
                    (λ (x : Block).
                      SkipsClean (apply_tx_at crypto (rules_of c) x.header.height)
                        (candidates c.mempool) c.state)
                    (sym is_b) clean))
        ]
  ]
