-- ===== src/Chain/Blocks/Checkpoint.antt =====
-- chain.go: the checkpoint of the hot window. The state is what replaying the blocks in memory on
-- the checkpoint gives.
use synthos_collective.Prelude.{
  ℕ, Bool, zero, suc, ◌+◌, ◌-◌, ◌≡◌, ◌<◌, refl, sym, ap, ◌∙◌, inl, inr, some, List, [], ◌∷◌, ◌++◌,
  length, take, drop, arith, Bool-cases, false, ◌||◌, ◌==◌, nat_eq,
}
use synthos_collective.Words.{u64_mod, add64}
use synthos_collective.Chain.Types.{State}
use synthos_collective.Chain.Monad.{ok, Result-cases}
use synthos_collective.Chain.Execution.{Crypto}
use synthos_collective.Chain.Blocks.Types.{Block, Chain, Rules, rules_of}
use synthos_collective.Chain.Blocks.Transition.{block_state}
use synthos_collective.Chain.Blocks.Window.{
  hot_window_base_state_of, advance_checkpoint, trim_hot_window,
}

take-drop : (n : ℕ) (xs : List Block) → take n xs ++ drop n xs ≡ xs
take-drop zero xs = refl
take-drop (suc n) [] = refl
take-drop (suc n) (x ∷ xs) = ap (λ (ys : List Block). x ∷ ys) (take-drop n xs)

-- A window that moved does not start at 0.
moved_start :
    (start excess : ℕ) (unbounded : Bool)
    → (unbounded || excess == 0) ≡ false
    → start + excess < u64_mod
    → (add64 start excess == 0) ≡ false
unfolding add64
moved_start start excess unbounded h small = ground arith

module _ (crypto : Crypto) where
  -- What replaying more blocks does after replaying some.
  pub advance-append :
      (r : Rules) (xs ys : List Block) (s s' : State)
      → advance_checkpoint crypto r xs s ≡ ok s'
      → advance_checkpoint crypto r (xs ++ ys) s ≡ advance_checkpoint crypto r ys s'
  unfolding advance_checkpoint
  advance-append r [] ys s s' h = ground (arith, h)
  advance-append r (x ∷ xs) ys s s' h = elim (Result-cases (block_state crypto r x s)) [
    | inl (e, bad) ↦ ground (arith, bad)
    | inr (t, fine) ↦
        let rest : advance_checkpoint crypto r xs t ≡ ok s' = ground (arith, fine, h) in
        rw (fine, advance_checkpoint) (advance-append r xs ys t s' rest)
  ]

  -- The state is the replay of the blocks in memory on the checkpoint.
  abbrev pub IsReplay : Chain → Type 0
  IsReplay c =
      (base : State) × (hot_window_base_state_of c ≡ some base)
      × (advance_checkpoint crypto (rules_of c) c.blocks base ≡ ok c.state)

  -- The rest of the blocks replays on the new checkpoint.
  advance-rest :
      (r : Rules) (n : ℕ) (bs : List Block) (s mid final : State)
      → advance_checkpoint crypto r bs s ≡ ok final
      → advance_checkpoint crypto r (take n bs) s ≡ ok mid
      → advance_checkpoint crypto r (drop n bs) mid ≡ ok final
  advance-rest r n bs s mid final all part =
      sym (advance-append r (take n bs) (drop n bs) s mid part)
      ∙ ap (λ (xs : List Block). advance_checkpoint crypto r xs s) (take-drop n bs)
      ∙ all

  pub trim-IsReplay :
      (c : Chain)
      → c.hot_window_start + length c.blocks < u64_mod
      → IsReplay c
      → IsReplay (trim_hot_window crypto c)
  unfolding trim_hot_window
  trim-IsReplay c small (base, based, replayed) =
      let excess = length c.blocks - c.max_hot_blocks in
      elim (Bool-cases (c.max_hot_blocks == 0 || excess == 0)) [
        | inl h ↦ rw h (base, based, replayed)
        | inr h ↦
            elim (Result-cases
              (advance_checkpoint crypto (rules_of c) (take excess c.blocks) base)) [
                | inl (e, bad) ↦ rw (h, based, bad) (base, based, replayed)
                | inr (mid, moved) ↦
                    rw (h, based, moved)
                      (
                        mid,
                        rw
                            (moved_start c.hot_window_start excess (c.max_hot_blocks == 0) h
                              (omega arith))
                            refl,
                        advance-rest (rules_of c) excess c.blocks base mid c.state replayed moved,
                      )
              ]
      ]
