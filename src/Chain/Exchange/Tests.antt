-- ===== src/Chain/Exchange/Tests.antt =====
-- core.go's DEX transactions at concrete inputs.
use synthos_collective.Prelude.{◌<◌, ◌≡◌, ◌≢◌, refl, [], ◌∷◌, arith, eq_iff, String}
use synthos_collective.Words.{u64_mod, add64, sub64}
use synthos_collective.Text.Numbers.{parse_uint}
use synthos_collective.Dict.{lookup, insert}
use synthos_collective.Chain.Types.{Pool, State, Tx, new_state, account_of}
use synthos_collective.Chain.Monad.{ok}
use synthos_collective.Chain.Ledger.{asset_of}
use synthos_collective.Chain.Exchange.Dispatch.{apply_dex_tx}
use synthos_collective.Chain.Exchange.Settlement.{KeepsSupply}
use synthos_collective.Chain.Governance.Execution.{balances}
use synthos_collective.Chain.Ledger.Transfers.{holdings}
use synthos_collective.Chain.Exchange.Conservation.{apply_dex_tx-KeepsSupply}

abbrev swap_tx : Tx
swap_tx = record {
  id = "t";
  chain_id = 1;
  from = "alice";
  to = "alice";
  amount = 100;
  fee = 10;
  nonce = 0;
  public_key = "k";
  signature = "";
  asset_id = "";
  metadata = record { key = "asset_id"; value = " gold " } ∷ [];
  timestamp = 0;
}

abbrev gold_pool : Pool
gold_pool = record {
  asset_id = "GOLD";
  syn_reserve = 1000;
  asset_reserve = 500;
  total_shares = 700;
  shares = ("bob", 700) ∷ [];
}

abbrev market : State
unfolding new_state
market = record new_state {
  accounts =
      ("alice", record { balance = 300; assets = []; nonce = 0 })
      ∷ ("0xdex_pool_gold", record { balance = 1000; assets = ("GOLD", 500) ∷ []; nonce = 0 })
      ∷ [];
  dex_pools = ("GOLD", gold_pool) ∷ [];
}

swap_runs : (apply_dex_tx swap_tx "dex_swap" market).0 ≡ ok tt
unfolding apply_dex_tx new_state lookup insert add64 sub64 parse_uint
swap_runs = refl

-- A 100 SYN input buys 45 of the asset.
swap_pays : asset_of "GOLD" (account_of "alice" (apply_dex_tx swap_tx "dex_swap" market).1) ≡ 45
unfolding apply_dex_tx new_state lookup insert add64 sub64 parse_uint
swap_pays = refl

abbrev swap_type : String
swap_type = "dex_swap"

abbrev issue_type : String
issue_type = "asset_issue"

not_issue : swap_type ≢ issue_type
not_issue h = ground (arith, eq_iff swap_type issue_type)

supplies : (balances market < u64_mod) × (holdings "GOLD" market < u64_mod)
unfolding new_state lookup
supplies = (omega arith, omega arith)

apply_dex_tx-KeepsSupply_example :
    KeepsSupply swap_tx "GOLD" market (apply_dex_tx swap_tx "dex_swap" market).1
apply_dex_tx-KeepsSupply_example =
    apply_dex_tx-KeepsSupply swap_tx "GOLD" market supplies.0 supplies.1 swap_type not_issue
      swap_runs
