-- ===== src/Chain/Execution/Trades.antt =====
-- core.go: the nonces after a DEX transaction.
use synthos_collective.Prelude.{
  ℕ, ◌⊎◌, ◌||◌, ◌≡◌, refl, ◌∙◌, inl, inr, get_or, arith, true, false, string_eq, nat_eq, String,
  Option-cases, Bool-cases, if◌then◌else◌, ◌==◌,
}
use synthos_collective.Words.{add64, sub64}
use synthos_collective.Dict.{insert}
use synthos_collective.Chain.Errors.{CoreError, DexError, Error, core, dex}
use synthos_collective.Chain.Types.{Address, Account, Pool, State, Tx, account_of}
use synthos_collective.Chain.Monad.{err, Result-cases}
use synthos_collective.Chain.Dex.{empty_pool, minted_shares}
use synthos_collective.Chain.Ledger.{asset_of}
use synthos_collective.Chain.Exchange.Fields.{
  pool_address, pool_of, set_pool, is_tradable, trade_asset, with_reserves, settle_pool,
  settle_sender, sum_or, positive_number,
}
use synthos_collective.Chain.Exchange.Liquidity.{
  add_pool_liquidity, remove_pool_liquidity, deposit_cost, withdrawal_out, settle_deposit,
  settle_withdrawal, burned, with_minted, syn_amount, asset_amount,
}
use synthos_collective.Chain.Exchange.Swaps.{
  purchase, sale, swap_in_pool, swap_amount, swap_quote, settle_purchase, settle_sale, sells_syn,
}
use synthos_collective.Chain.Exchange.Dispatch.{issue_asset, dex_action, apply_dex_tx}
use synthos_collective.Chain.Execution.Actions.{nonce_of, CountsNonce, write-nonce, count-nonce}

module _ (a : Address) (tx : Tx) (id : String) where
  -- What the two account writes do to a nonce.
  settled-nonce :
      (syn asset : ℕ) (pool : Pool) (balance held : ℕ → ℕ) (s : State)
      → nonce_of a (settle_sender tx id balance held (settle_pool id syn asset pool s))
        ≡ (if tx.from == a then add64 (nonce_of a s) 1 else nonce_of a s)
  unfolding settle_pool
  settled-nonce syn asset pool balance held s =
      let between = settle_pool id syn asset pool s in
      let acc = account_of tx.from between in
      let p = with_reserves id syn asset (account_of (pool_address id) s) in
      let kept = write-nonce a (pool_address id) p s.accounts refl in
      let sender : Account = record acc {
        balance = balance acc.balance;
        assets = insert id (held (asset_of id acc)) acc.assets;
        nonce = add64 acc.nonce 1;
      } in
      let counted = count-nonce a tx.from sender between.accounts refl in counted ∙ rw kept refl

  purchase-nonce :
      (amount_in : ℕ) (pool : Pool) (s : State)
      → CountsNonce a tx s (purchase tx id amount_in pool s)
  unfolding purchase settle_purchase
  purchase-nonce amount_in pool s =
      let acc = account_of (pool_address id) s in
      elim (Result-cases (sum_or (core CoreError.amount_overflow) amount_in tx.fee)) [
        | inl (e, bad) ↦ ground (arith, bad)
        | inr (total, cost) ↦ elim (Result-cases (swap_quote tx true amount_in pool)) [
          | inl (e, bad) ↦ ground (arith, cost, bad)
          | inr (out, quote) ↦
              let done =
                settled-nonce (add64 acc.balance amount_in) (sub64 (asset_of id acc) out) pool
                  (λ balance. sub64 balance total) (λ held. add64 held out) s in
              ground (arith, cost, quote, done)
        ]
      ]

  sale-nonce :
      (amount_in : ℕ) (pool : Pool) (s : State) → CountsNonce a tx s (sale tx id amount_in pool s)
  unfolding sale settle_sale
  sale-nonce amount_in pool s =
      let acc = account_of (pool_address id) s in
      elim (Result-cases (swap_quote tx false amount_in pool)) [
        | inl (e, bad) ↦ ground (arith, bad)
        | inr (out, quote) ↦
            let done =
              settled-nonce (sub64 acc.balance out) (add64 (asset_of id acc) amount_in) pool
                (λ balance. add64 (sub64 balance tx.fee) out) (λ held. sub64 held amount_in) s in
            ground (arith, quote, done)
      ]

module _ (a : Address) (tx : Tx) (s : State) where
  -- A swap is refused, or is a purchase or a sale.
  swap_path :
      ((e : Error) × (swap_in_pool tx s ≡ (err e, s)))
      ⊎ ((pool : Pool) × ((swap_in_pool tx s ≡ purchase tx (trade_asset tx) (swap_amount tx) pool s)
            ⊎ (swap_in_pool tx s ≡ sale tx (trade_asset tx) (swap_amount tx) pool s)))
  unfolding swap_in_pool
  swap_path = elim (Option-cases (pool_of (trade_asset tx) s)) [
    | inl missing ↦ elim (Bool-cases (is_tradable (trade_asset tx))) [
      | inr k ↦ inl (dex DexError.invalid_asset_id, rw k refl)
      | inl k ↦ elim (Bool-cases (swap_amount tx == 0)) [
        | inl z ↦ inl (dex DexError.amounts_not_positive, rw (k, z) refl)
        | inr z ↦ inl (dex DexError.pool_not_found, rw (k, z, missing) refl)
      ]
    ]
    | inr (pool, found) ↦ elim (Bool-cases (is_tradable (trade_asset tx))) [
      | inr k ↦ inl (dex DexError.invalid_asset_id, rw k refl)
      | inl k ↦ elim (Bool-cases (swap_amount tx == 0)) [
        | inl z ↦ inl (dex DexError.amounts_not_positive, rw (k, z) refl)
        | inr z ↦ elim (Bool-cases (pool.syn_reserve == 0 || pool.asset_reserve == 0)) [
          | inl empty ↦ inl (dex DexError.insufficient_liquidity, rw (k, z, found, empty) refl)
          | inr full ↦ elim (Bool-cases (sells_syn tx (trade_asset tx))) [
            | inl d ↦ inr (pool, inl (rw (k, z, found, full, d) refl))
            | inr d ↦ inr (pool, inr (rw (k, z, found, full, d) refl))
          ]
        ]
      ]
    ]
  ]

  swap-nonce : CountsNonce a tx s (swap_in_pool tx s)
  swap-nonce = elim swap_path [
    | inl (e, by) ↦ rw by refl
    | inr (pool, path) ↦ elim path [
      | inl by ↦ rw by (purchase-nonce a tx (trade_asset tx) (swap_amount tx) pool s)
      | inr by ↦ rw by (sale-nonce a tx (trade_asset tx) (swap_amount tx) pool s)
    ]
  ]

  remove-nonce : CountsNonce a tx s (remove_pool_liquidity tx s)
  unfolding remove_pool_liquidity settle_withdrawal
  remove-nonce =
      let id = trade_asset tx in
      let shares = positive_number tx "shares" in
      let acc = account_of (pool_address id) s in
      elim (Option-cases (pool_of id s)) [
        | inl missing ↦ ground (arith, missing)
        | inr (pool, found) ↦ elim (Result-cases (withdrawal_out tx shares pool)) [
          | inl (e, bad) ↦ ground (arith, found, bad)
          | inr ((syn, amount), out) ↦
              let done =
                settled-nonce a tx id (sub64 acc.balance syn) (sub64 (asset_of id acc) amount)
                  (burned tx shares pool) (λ balance. add64 (sub64 balance tx.fee) syn)
                  (λ got. add64 got amount) s in
              ground (arith, found, out, done)
        ]
      ]

  add-nonce : CountsNonce a tx s (add_pool_liquidity tx s)
  unfolding add_pool_liquidity settle_deposit
  add-nonce =
      let id = trade_asset tx in
      let pool = get_or (pool_of id s) (empty_pool id) in
      let acc = account_of (pool_address id) s in
      elim (Result-cases (deposit_cost tx (account_of tx.from s))) [
        | inl (e, bad) ↦ ground (arith, bad)
        | inr (total, cost) ↦
            elim (Result-cases (minted_shares (syn_amount tx) (asset_amount tx) pool)) [
              | inl (e, bad) ↦ ground (arith, cost, bad)
              | inr (shares, minted) ↦
                  let opened = set_pool id pool s in
                  let done =
                    settled-nonce a tx id (add64 acc.balance (syn_amount tx))
                      (add64 (asset_of id acc) (asset_amount tx)) (with_minted tx shares pool)
                      (λ balance. sub64 balance total) (λ held. sub64 held (asset_amount tx))
                      opened in
                  ground (arith, cost, minted, done)
            ]
      ]

  issue-nonce : CountsNonce a tx s (issue_asset tx s)
  unfolding issue_asset
  issue-nonce =
      let id = trade_asset tx in
      let acc = account_of tx.from s in
      let amount = (if tx.amount == 0 then positive_number tx "amount" else tx.amount) in
      elim (Result-cases (sum_or (dex DexError.asset_overflow) (asset_of id acc) amount)) [
        | inl (e, bad) ↦ ground (arith, bad)
        | inr (next, fine) ↦
            let sender : Account = record acc {
              balance = sub64 acc.balance tx.fee;
              assets = insert id next acc.assets;
              nonce = add64 acc.nonce 1;
            } in
            let done = count-nonce a tx.from sender s.accounts refl in ground (arith, fine, done)
      ]

  action-nonce : (tx_type : String) → CountsNonce a tx s (dex_action tx tx_type s)
  unfolding dex_action
  action-nonce tx_type = elim (Bool-cases (tx_type == "asset_issue")) [
    | inl h ↦ rw h issue-nonce
    | inr h1 ↦ elim (Bool-cases (tx_type == "dex_add_liquidity")) [
      | inl h ↦ rw (h1, h) add-nonce
      | inr h2 ↦ elim (Bool-cases (tx_type == "dex_remove_liquidity")) [
        | inl h ↦ rw (h1, h2, h) remove-nonce
        | inr h3 ↦ elim (Bool-cases (tx_type == "dex_swap")) [
          | inl h ↦ rw (h1, h2, h3, h) swap-nonce
          | inr h4 ↦ rw (h1, h2, h3, h4) refl
        ]
      ]
    ]
  ]

  -- A DEX transaction moves only its sender's nonce, and only where it succeeds.
  pub dex_tx-nonce : (tx_type : String) → CountsNonce a tx s (apply_dex_tx tx tx_type s)
  unfolding apply_dex_tx
  dex_tx-nonce tx_type = elim (Bool-cases (tx.nonce == (account_of tx.from s).nonce)) [
    | inr bad ↦ rw bad refl
    | inl fine ↦ rw fine (action-nonce tx_type)
  ]
