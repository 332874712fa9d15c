-- ===== src/Chain/Exchange/Conservation.antt =====
-- core.go: adding and removing liquidity and swapping keep the supply of SYN, the fee apart, and of
-- every asset.
use synthos_collective.Prelude.{
  ℕ, ◌+◌, ◌≤◌, ◌<◌, ◌≡◌, ◌≢◌, ◌⊎◌, inl, inr, get_or, arith, sym, nat_eq, string_eq, true, false,
  Option-cases, Bool-cases, eq_iff, String, some,
}
use synthos_collective.Words.{u64_mod}
use synthos_collective.Chain.Types.{Account, Pool, State, Tx, account_of}
use synthos_collective.Chain.Monad.{ok, Result-cases}
use synthos_collective.Chain.SafeMath.{safe_add}
use synthos_collective.Chain.Governance.Execution.{balances}
use synthos_collective.Chain.Dex.{empty_pool, minted_shares}
use synthos_collective.Chain.Ledger.{asset_of}
use synthos_collective.Chain.Ledger.Transfers.{holdings}
use synthos_collective.Chain.Exchange.Fields.{
  pool_of, set_pool, positive_number, pool_address, trade_asset,
}
use synthos_collective.Chain.Exchange.Swaps.{
  swap_amount, sells_syn, purchase, sale, swap_quote, swap_in_pool, settle_purchase, settle_sale,
}
use synthos_collective.Chain.Exchange.Dispatch.{dex_action, apply_dex_tx}
use synthos_collective.Chain.Exchange.Liquidity.{
  withdrawal_out, remove_pool_liquidity, deposit_cost, syn_amount, asset_amount, add_pool_liquidity,
  settle_deposit, settle_withdrawal,
}
use synthos_collective.Chain.Exchange.Settlement.{
  KeepsSupply, settle_deposit-KeepsSupply, settle_withdrawal-KeepsSupply,
  settle_purchase-KeepsSupply, settle_sale-KeepsSupply,
}

deposit_cost-ok :
    (tx : Tx) (acc : Account) (total : ℕ)
    → deposit_cost tx acc ≡ ok total
    → (total ≡ syn_amount tx + tx.fee)
      × (syn_amount tx + tx.fee ≤ acc.balance)
      × (asset_amount tx ≤ asset_of (trade_asset tx) acc)
unfolding deposit_cost safe_add
deposit_cost-ok tx acc total h = ground arith

-- What a deposit that succeeds wrote.
deposit_written :
    (tx : Tx) (s : State) (total shares : ℕ)
    → let id = trade_asset tx in
      let pool = get_or (pool_of id s) (empty_pool id) in
      deposit_cost tx (account_of tx.from s) ≡ ok total
      → minted_shares (syn_amount tx) (asset_amount tx) pool ≡ ok shares
      → (add_pool_liquidity tx s).0 ≡ ok tt
      → (add_pool_liquidity tx s).1
        ≡ settle_deposit tx id
            (syn_amount tx)
            (asset_amount tx)
            total
            shares
            pool
            (set_pool id pool s)
unfolding add_pool_liquidity
deposit_written tx s total shares cost minted h = ground (arith, cost, minted)

withdrawal_written :
    (tx : Tx) (s : State) (pool : Pool) (syn amount : ℕ)
    → let id = trade_asset tx in
      let shares = positive_number tx "shares" in
      pool_of id s ≡ some pool
      → withdrawal_out tx shares pool ≡ ok (syn, amount)
      → (remove_pool_liquidity tx s).0 ≡ ok tt
      → ((remove_pool_liquidity tx s).1 ≡ settle_withdrawal tx id shares syn amount pool s)
        × (tx.fee ≤ (account_of tx.from s).balance)
        × (syn ≤ (account_of (pool_address id) s).balance)
        × (amount ≤ asset_of id (account_of (pool_address id) s))
unfolding remove_pool_liquidity
withdrawal_written tx s pool syn amount found out h = ground (arith, found, out)

purchase_written :
    (tx : Tx) (id : String) (amount_in amount_out : ℕ) (pool : Pool) (s : State)
    → swap_quote tx true amount_in pool ≡ ok amount_out
    → (purchase tx id amount_in pool s).0 ≡ ok tt
    → ((purchase tx id amount_in pool s).1
        ≡ settle_purchase tx id (amount_in + tx.fee) amount_in amount_out pool s)
      × (amount_in + tx.fee ≤ (account_of tx.from s).balance)
      × (amount_out ≤ asset_of id (account_of (pool_address id) s))
unfolding purchase safe_add
purchase_written tx id amount_in amount_out pool s quote h = ground (arith, quote)

sale_written :
    (tx : Tx) (id : String) (amount_in amount_out : ℕ) (pool : Pool) (s : State)
    → swap_quote tx false amount_in pool ≡ ok amount_out
    → (sale tx id amount_in pool s).0 ≡ ok tt
    → ((sale tx id amount_in pool s).1 ≡ settle_sale tx id amount_in amount_out pool s)
      × (tx.fee ≤ (account_of tx.from s).balance)
      × (amount_in ≤ asset_of id (account_of tx.from s))
      × (amount_out ≤ (account_of (pool_address id) s).balance)
unfolding sale
sale_written tx id amount_in amount_out pool s quote h = ground (arith, quote)

-- A deposit that succeeds has a cost and mints shares.
deposit_ran :
    (tx : Tx) (s : State)
    → let id = trade_asset tx in
      let pool = get_or (pool_of id s) (empty_pool id) in
      (add_pool_liquidity tx s).0 ≡ ok tt
      → ((total : ℕ) × (deposit_cost tx (account_of tx.from s) ≡ ok total))
        × ((shares : ℕ) × (minted_shares (syn_amount tx) (asset_amount tx) pool ≡ ok shares))
unfolding add_pool_liquidity
deposit_ran tx s h =
    let id = trade_asset tx in
    let pool = get_or (pool_of id s) (empty_pool id) in
    elim (Result-cases (deposit_cost tx (account_of tx.from s))) [
      | inl (e, bad) ↦ ground (arith, bad)
      | inr cost ↦ elim (Result-cases (minted_shares (syn_amount tx) (asset_amount tx) pool)) [
        | inl (e, bad) ↦ ground (arith, bad, cost.1)
        | inr minted ↦ (cost, minted)
      ]
    ]

withdrawal_ran :
    (tx : Tx) (s : State)
    → (remove_pool_liquidity tx s).0 ≡ ok tt
    → (pool : Pool) × (pool_of (trade_asset tx) s ≡ some pool)
      × (syn : ℕ) × (amount : ℕ) × (withdrawal_out tx (positive_number tx "shares") pool
          ≡ ok (syn, amount))
unfolding remove_pool_liquidity
withdrawal_ran tx s h = elim (Option-cases (pool_of (trade_asset tx) s)) [
  | inl missing ↦ ground (arith, missing)
  | inr (pool, found) ↦ elim (Result-cases (withdrawal_out tx (positive_number tx "shares") pool)) [
    | inl (e, bad) ↦ ground (arith, bad, found)
    | inr ((syn, amount), out) ↦ (pool, found, syn, amount, out)
  ]
]

purchase_ran :
    (tx : Tx) (id : String) (amount_in : ℕ) (pool : Pool) (s : State)
    → (purchase tx id amount_in pool s).0 ≡ ok tt
    → (out : ℕ) × (swap_quote tx true amount_in pool ≡ ok out)
unfolding purchase safe_add
purchase_ran tx id amount_in pool s h = elim (Result-cases (swap_quote tx true amount_in pool)) [
  | inl (e, bad) ↦ ground (arith, bad)
  | inr quote ↦ quote
]

sale_ran :
    (tx : Tx) (id : String) (amount_in : ℕ) (pool : Pool) (s : State)
    → (sale tx id amount_in pool s).0 ≡ ok tt
    → (out : ℕ) × (swap_quote tx false amount_in pool ≡ ok out)
unfolding sale
sale_ran tx id amount_in pool s h = elim (Result-cases (swap_quote tx false amount_in pool)) [
  | inl (e, bad) ↦ ground (arith, bad)
  | inr quote ↦ quote
]

-- A swap that succeeds is a purchase or a sale in a pool that exists.
swap_ran :
    (tx : Tx) (s : State)
    → let id = trade_asset tx in
      let amount_in = swap_amount tx in
      (swap_in_pool tx s).0 ≡ ok tt
      → (pool : Pool) × ((swap_in_pool tx s ≡ purchase tx id amount_in pool s)
          ⊎ (swap_in_pool tx s ≡ sale tx id amount_in pool s))
unfolding swap_in_pool
swap_ran tx s h = elim (Option-cases (pool_of (trade_asset tx) s)) [
  | inl missing ↦ ground (arith, missing)
  | inr (pool, found) ↦ (
    pool,
    elim (Bool-cases (sells_syn tx (trade_asset tx))) [
      | inl k ↦ inl (ground (arith, found, k))
      | inr k ↦ inr (ground (arith, found, k))
    ],
  )
]

module _ (tx : Tx) (asset : String) (s : State) (small : balances s < u64_mod)
    (few : holdings asset s < u64_mod) where
  add_pool_liquidity-KeepsSupply :
      (add_pool_liquidity tx s).0 ≡ ok tt → KeepsSupply tx asset s (add_pool_liquidity tx s).1
  add_pool_liquidity-KeepsSupply h =
      let id = trade_asset tx in
      let pool = get_or (pool_of id s) (empty_pool id) in
      let ((total, cost), (shares, minted)) = deposit_ran tx s h in
      let guards = deposit_cost-ok tx (account_of tx.from s) total cost in
      rw (deposit_written tx s total shares cost minted h, guards.0)
        (settle_deposit-KeepsSupply tx id pool (set_pool id pool s) (syn_amount tx)
          (asset_amount tx) shares asset small few guards.1 guards.2)

  remove_pool_liquidity-KeepsSupply :
      (remove_pool_liquidity tx s).0 ≡ ok tt → KeepsSupply tx asset s (remove_pool_liquidity tx s).1
  remove_pool_liquidity-KeepsSupply h =
      let (pool, found, syn, amount, out) = withdrawal_ran tx s h in
      let did = withdrawal_written tx s pool syn amount found out h in
      rw did.0 (
        settle_withdrawal-KeepsSupply tx (trade_asset tx) pool s (positive_number tx "shares") syn
          amount asset small few did.1 did.2 did.3)

  purchase-KeepsSupply :
      (id : String) (amount_in : ℕ) (pool : Pool)
      → (purchase tx id amount_in pool s).0 ≡ ok tt
      → KeepsSupply tx asset s (purchase tx id amount_in pool s).1
  purchase-KeepsSupply id amount_in pool h =
      let (out, quote) = purchase_ran tx id amount_in pool s h in
      let did = purchase_written tx id amount_in out pool s quote h in
      rw did.0 (settle_purchase-KeepsSupply tx id pool s amount_in out asset small few did.1 did.2)

  sale-KeepsSupply :
      (id : String) (amount_in : ℕ) (pool : Pool)
      → (sale tx id amount_in pool s).0 ≡ ok tt
      → KeepsSupply tx asset s (sale tx id amount_in pool s).1
  sale-KeepsSupply id amount_in pool h =
      let (out, quote) = sale_ran tx id amount_in pool s h in
      let did = sale_written tx id amount_in out pool s quote h in
      rw did.0
        (settle_sale-KeepsSupply tx id pool s amount_in out asset small few did.1 did.2 did.3)

  swap_in_pool-KeepsSupply :
      (swap_in_pool tx s).0 ≡ ok tt → KeepsSupply tx asset s (swap_in_pool tx s).1
  swap_in_pool-KeepsSupply h =
      let id = trade_asset tx in
      let amount_in = swap_amount tx in
      let (pool, ran) = swap_ran tx s h in
      elim ran [
        | inl by ↦
            let done : (purchase tx id amount_in pool s).0 ≡ ok tt = rw (sym by) h in
            rw by (purchase-KeepsSupply id amount_in pool done)
        | inr by ↦
            let done : (sale tx id amount_in pool s).0 ≡ ok tt = rw (sym by) h in
            rw by (sale-KeepsSupply id amount_in pool done)
      ]

  -- A transaction that adds or removes liquidity or swaps, and succeeds on a state whose balances
  -- and whose holdings of an asset sum to less than 2^64, takes its fee and nothing else out of the
  -- sum of all balances and keeps the sum of the asset.
  pub apply_dex_tx-KeepsSupply :
      (tx_type : String)
      → tx_type ≢ "asset_issue"
      → (apply_dex_tx tx tx_type s).0 ≡ ok tt
      → KeepsSupply tx asset s (apply_dex_tx tx tx_type s).1
  unfolding apply_dex_tx dex_action
  apply_dex_tx-KeepsSupply tx_type other h = ground (
    arith,
    add_pool_liquidity-KeepsSupply,
    remove_pool_liquidity-KeepsSupply,
    swap_in_pool-KeepsSupply,
    eq_iff tx_type "asset_issue",
  )
