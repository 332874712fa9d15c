-- ===== src/Chain/Exchange/Liquidity.antt =====
-- core.go: the cases of applyDEXTx that add and remove liquidity.
use synthos_collective.Prelude.{
  ℕ, Bool, not, ◌&&◌, ◌||◌, get_or, ltb, if◌then◌else◌, ◌==◌, nat_eq, string_eq, String,
}
use synthos_collective.Words.{add64, sub64}
use synthos_collective.Text.{to_lower}
use synthos_collective.Dict.{insert, delete}
use synthos_collective.Chain.Errors.{CoreError, DexError, core, dex}
use synthos_collective.Chain.Types.{Account, Pool, State, Tx, account_of}
use synthos_collective.Chain.Monad.{
  Result, ok, err, Action, gets, or_raise, lift, raise_if, modify, ◌>>=◌, ◌>>◌,
}
use synthos_collective.Chain.SafeMath.{safe_add}
use synthos_collective.Chain.Dex.{empty_pool, shares_of, minted_shares, pro_rata}
use synthos_collective.Chain.Ledger.{asset_of}
use synthos_collective.Chain.Exchange.Fields.{
  pool_address, trade_asset, is_tradable, metadata_number, positive_number, below_minimum, sum_or,
  pool_of, set_pool, settle_pool, settle_sender,
}

abbrev is_syn : String → Bool
is_syn id = id == "syn"

-- synAmount of a deposit
unfoldable pub syn_amount : Tx → ℕ
unfolding metadata_number to_lower
syn_amount tx =
    let given = metadata_number tx "syn_amount" in
    if given == 0 && (tx.asset_id == "" || is_syn (to_lower tx.asset_id)) then tx.amount else given

-- assetAmount of a deposit
unfoldable pub asset_amount : Tx → ℕ
unfolding metadata_number to_lower
asset_amount tx =
    let given = metadata_number tx "asset_amount" in
    if given == 0 && (not (tx.asset_id == "") && not (is_syn (to_lower tx.asset_id)))
    then tx.amount
    else given

-- The checks of a deposit on its amounts and its sender: SYN with the fee.
unfoldable pub deposit_cost : Tx → Account → Result ℕ
unfolding trade_asset syn_amount asset_amount safe_add
deposit_cost tx acc =
    let id = trade_asset tx in
    if not (is_tradable id)
    then err (dex DexError.invalid_asset_id)
    else if syn_amount tx == 0 || asset_amount tx == 0
    then err (dex DexError.amounts_not_positive)
    else elim (sum_or (core CoreError.amount_overflow) (syn_amount tx) tx.fee) [
      | err e ↦ err e
      | ok total ↦
          if ltb acc.balance total
          then err (core CoreError.insufficient_funds)
          else if ltb (asset_of id acc) (asset_amount tx)
          then err (dex DexError.insufficient_asset)
          else ok total
    ]

-- The pool with the sender's new shares.
abbrev pub with_minted : Tx → ℕ → Pool → Pool
with_minted tx shares pool = record pool {
  total_shares = add64 pool.total_shares shares;
  shares = insert tx.from (add64 (shares_of tx.from pool) shares) pool.shares;
}

-- The writes of a deposit.
unfoldable pub settle_deposit : Tx → String → ℕ → ℕ → ℕ → ℕ → Pool → State → State
unfolding settle_pool pool_address
settle_deposit tx id syn asset total shares pool s =
    let acc = account_of (pool_address id) s in
    settle_sender tx id (λ balance. sub64 balance total) (λ held. sub64 held asset)
      (settle_pool id (add64 acc.balance syn) (add64 (asset_of id acc) asset)
        (with_minted tx shares pool) s)

-- The case "dex_add_liquidity". A missing pool is created, and stays on an error.
unfoldable pub add_pool_liquidity : Tx → Action State (Unit {0})
unfolding deposit_cost metadata_number minted_shares settle_deposit
add_pool_liquidity tx = do
  acc ← gets (account_of tx.from)
  total ← lift (deposit_cost tx acc)
  let id = trade_asset tx
  let syn = syn_amount tx
  let asset = asset_amount tx
  pool ← gets (λ s. get_or (pool_of id s) (empty_pool id))
  modify (set_pool id pool)
  shares ← lift (minted_shares syn asset pool)
  raise_if (shares == 0) (dex DexError.nothing_minted)
  raise_if (below_minimum (metadata_number tx "min_shares") shares) (dex DexError.slippage)
  modify (settle_deposit tx id syn asset total shares pool)

-- The pool without the shares that the sender gives up.
abbrev pub burned : Tx → ℕ → Pool → Pool
burned tx shares pool =
    let held = sub64 (shares_of tx.from pool) shares in
    record pool {
      total_shares = sub64 pool.total_shares shares;
      shares = if held == 0 then delete tx.from pool.shares else insert tx.from held pool.shares;
    }

-- The writes of a withdrawal. The order of the two steps on the sender's balance is the code's.
unfoldable pub settle_withdrawal : Tx → String → ℕ → ℕ → ℕ → Pool → State → State
unfolding settle_pool pool_address
settle_withdrawal tx id shares syn asset pool s =
    let acc = account_of (pool_address id) s in
    settle_sender tx id (λ balance. add64 (sub64 balance tx.fee) syn) (λ got. add64 got asset)
      (settle_pool id (sub64 acc.balance syn) (sub64 (asset_of id acc) asset)
        (burned tx shares pool) s)

-- What a withdrawal of `shares` pays out of SYN and of the asset, with its checks on the pool.
unfoldable pub withdrawal_out : Tx → ℕ → Pool → Result (ℕ × ℕ)
unfolding metadata_number
withdrawal_out tx shares pool =
    let syn = pro_rata shares pool.syn_reserve pool.total_shares in
    let asset = pro_rata shares pool.asset_reserve pool.total_shares in
    if pool.total_shares == 0
    then err (dex DexError.pool_not_found)
    else if ltb (shares_of tx.from pool) shares
    then err (dex DexError.insufficient_shares)
    else if syn == 0 || asset == 0
    then err (dex DexError.zero_output)
    else if below_minimum (metadata_number tx "min_syn_out") syn
    then err (dex DexError.slippage)
    else if below_minimum (metadata_number tx "min_asset_out") asset
    then err (dex DexError.slippage)
    else ok (syn, asset)

-- The case "dex_remove_liquidity".
unfoldable pub remove_pool_liquidity : Tx → Action State (Unit {0})
unfolding trade_asset positive_number withdrawal_out pool_address settle_withdrawal
remove_pool_liquidity tx = do
  acc ← gets (account_of tx.from)
  let id = trade_asset tx
  let shares = positive_number tx "shares"
  raise_if (shares == 0) (dex DexError.invalid_shares)
  raise_if (ltb acc.balance tx.fee) (core CoreError.insufficient_funds)
  pool ← or_raise (← gets (pool_of id)) (dex DexError.pool_not_found)
  (syn, asset) ← lift (withdrawal_out tx shares pool)
  pool_acc ← gets (account_of (pool_address id))
  raise_if (ltb pool_acc.balance syn || ltb (asset_of id pool_acc) asset)
      (dex DexError.pool_mismatch)
  modify (settle_withdrawal tx id shares syn asset pool)
