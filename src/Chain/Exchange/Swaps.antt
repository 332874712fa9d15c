-- ===== src/Chain/Exchange/Swaps.antt =====
-- core.go: the case of applyDEXTx that swaps.
use synthos_collective.Prelude.{
  ℕ, Bool, true, false, not, ◌&&◌, ◌||◌, ltb, leb, if◌then◌else◌, ◌==◌, nat_eq, string_eq, String,
}
use synthos_collective.Words.{add64, sub64}
use synthos_collective.Text.{to_upper}
use synthos_collective.Chain.Errors.{CoreError, DexError, core, dex}
use synthos_collective.Chain.Types.{Pool, State, Tx, account_of, metadata_value}
use synthos_collective.Chain.Monad.{
  Result, ok, err, Action, gets, or_raise, lift, raise_if, modify, ◌>>=◌, ◌>>◌,
}
use synthos_collective.Chain.SafeMath.{safe_add}
use synthos_collective.Chain.Dex.{get_amount_out, reserve_in, reserve_out}
use synthos_collective.Chain.Ledger.{asset_of}
use synthos_collective.Chain.Exchange.Fields.{
  pool_address, trade_asset, is_tradable, metadata_number, below_minimum, sum_or, pool_of,
  settle_pool, settle_sender,
}

-- fromSyn
unfoldable pub sells_syn : Tx → String → Bool
unfolding to_upper
sells_syn tx id =
    let direction = metadata_value tx.metadata "direction" in
    not (
      direction == "asset_for_syn"
      || (metadata_value tx.metadata "from_syn" == "false"
          || (not (tx.asset_id == "")
              && (to_upper tx.asset_id == id && not (direction == "syn_for_asset")))))

-- The writes of a swap of SYN for the asset.
unfoldable pub settle_purchase : Tx → String → ℕ → ℕ → ℕ → Pool → State → State
unfolding settle_pool pool_address
settle_purchase tx id total amount_in amount_out pool s =
    let acc = account_of (pool_address id) s in
    settle_sender tx id (λ balance. sub64 balance total) (λ held. add64 held amount_out)
      (settle_pool id (add64 acc.balance amount_in) (sub64 (asset_of id acc) amount_out) pool s)

-- The writes of a swap of the asset for SYN.
unfoldable pub settle_sale : Tx → String → ℕ → ℕ → Pool → State → State
unfolding settle_pool pool_address
settle_sale tx id amount_in amount_out pool s =
    let acc = account_of (pool_address id) s in
    settle_sender tx id (λ balance. add64 (sub64 balance tx.fee) amount_out)
      (λ held. sub64 held amount_in)
      (settle_pool id (sub64 acc.balance amount_out) (add64 (asset_of id acc) amount_in) pool s)

-- The quote of a swap, and its check against the minimum.
unfoldable pub swap_quote : Tx → Bool → ℕ → Pool → Result ℕ
unfolding metadata_number get_amount_out
swap_quote tx from_syn amount_in pool =
    elim (get_amount_out amount_in (reserve_in from_syn pool) (reserve_out from_syn pool)) [
      | err e ↦ err e
      | ok amount_out ↦
          if below_minimum (metadata_number tx "min_amount_out") amount_out
          then err (dex DexError.slippage)
          else ok amount_out
    ]

-- The branch of a swap that sells SYN.
unfoldable pub purchase : Tx → String → ℕ → Pool → Action State (Unit {0})
unfolding swap_quote safe_add pool_address settle_purchase
purchase tx id amount_in pool = do
  acc ← gets (account_of tx.from)
  pool_acc ← gets (account_of (pool_address id))
  total ← lift (sum_or (core CoreError.amount_overflow) amount_in tx.fee)
  raise_if (ltb acc.balance total) (core CoreError.insufficient_funds)
  amount_out ← lift (swap_quote tx true amount_in pool)
  raise_if (leb pool.asset_reserve amount_out || ltb (asset_of id pool_acc) amount_out)
      (dex DexError.insufficient_reserve)
  modify (settle_purchase tx id total amount_in amount_out pool)

-- The branch of a swap that sells the asset.
unfoldable pub sale : Tx → String → ℕ → Pool → Action State (Unit {0})
unfolding swap_quote pool_address settle_sale
sale tx id amount_in pool = do
  acc ← gets (account_of tx.from)
  pool_acc ← gets (account_of (pool_address id))
  raise_if (ltb acc.balance tx.fee) (core CoreError.insufficient_funds)
  raise_if (ltb (asset_of id acc) amount_in) (dex DexError.insufficient_asset)
  amount_out ← lift (swap_quote tx false amount_in pool)
  raise_if (leb pool.syn_reserve amount_out || ltb pool_acc.balance amount_out)
      (dex DexError.insufficient_reserve)
  modify (settle_sale tx id amount_in amount_out pool)

-- amountIn
unfoldable pub swap_amount : Tx → ℕ
unfolding metadata_number
swap_amount tx = if tx.amount == 0 then metadata_number tx "amount_in" else tx.amount

-- The case "dex_swap".
unfoldable pub swap_in_pool : Tx → Action State (Unit {0})
unfolding trade_asset swap_amount sells_syn purchase sale
swap_in_pool tx = do
  let id = trade_asset tx
  raise_if (not (is_tradable id)) (dex DexError.invalid_asset_id)
  raise_if (swap_amount tx == 0) (dex DexError.amounts_not_positive)
  pool ← or_raise (← gets (pool_of id)) (dex DexError.pool_not_found)
  raise_if (pool.syn_reserve == 0 || pool.asset_reserve == 0) (dex DexError.insufficient_liquidity)
  if sells_syn tx id then purchase tx id (swap_amount tx) pool else sale tx id (swap_amount tx) pool
