-- ===== src/Chain/Exchange/Dispatch.antt =====
-- core.go: applyDEXTx, and its case that issues an asset.
use synthos_collective.Prelude.{not, ltb, if◌then◌else◌, ◌==◌, nat_eq, string_eq, String}
use synthos_collective.Words.{sub64}
use synthos_collective.Chain.Errors.{CoreError, DexError, core, dex}
use synthos_collective.Chain.Types.{State, Tx, account_of}
use synthos_collective.Chain.Monad.{Action, raise, gets, lift, raise_if, modify, ◌>>=◌, ◌>>◌}
use synthos_collective.Chain.SafeMath.{safe_add}
use synthos_collective.Chain.Ledger.{asset_of}
use synthos_collective.Chain.Exchange.Fields.{
  trade_asset, is_tradable, positive_number, sum_or, settle_sender,
}
use synthos_collective.Chain.Exchange.Liquidity.{add_pool_liquidity, remove_pool_liquidity}
use synthos_collective.Chain.Exchange.Swaps.{swap_in_pool}

-- The case "asset_issue".
unfoldable pub issue_asset : Tx → Action State (Unit {0})
unfolding trade_asset positive_number safe_add
issue_asset tx = do
  acc ← gets (account_of tx.from)
  let id = trade_asset tx
  raise_if (not (is_tradable id)) (dex DexError.invalid_asset_id)
  let amount = if tx.amount == 0 then positive_number tx "amount" else tx.amount
  raise_if (amount == 0) (dex DexError.amounts_not_positive)
  raise_if (ltb acc.balance tx.fee) (core CoreError.insufficient_funds)
  next ← lift (sum_or (dex DexError.asset_overflow) (asset_of id acc) amount)
  modify (settle_sender tx id (λ balance. sub64 balance tx.fee) (λ _. next))

-- The switch on the type.
unfoldable pub dex_action : Tx → String → Action State (Unit {0})
unfolding issue_asset add_pool_liquidity remove_pool_liquidity swap_in_pool
dex_action tx tx_type =
    if tx_type == "asset_issue"
    then issue_asset tx
    else if tx_type == "dex_add_liquidity"
    then add_pool_liquidity tx
    else if tx_type == "dex_remove_liquidity"
    then remove_pool_liquidity tx
    else if tx_type == "dex_swap"
    then swap_in_pool tx
    else raise (core CoreError.unhandled_tx_type)

unfoldable pub apply_dex_tx : Tx → String → Action State (Unit {0})
unfolding dex_action
apply_dex_tx tx tx_type = do
  acc ← gets (account_of tx.from)
  raise_if (not (tx.nonce == acc.nonce)) (core CoreError.bad_nonce)
  dex_action tx tx_type
