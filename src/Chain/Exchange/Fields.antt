-- ===== src/Chain/Exchange/Fields.antt =====
-- core.go: the fields that applyDEXTx reads, and the two account writes of its cases. A pool's
-- account is written first, the pool's reserves are read back from it, and then the sender is read
-- and written. An absent Assets map reads as an empty one, and a write creates it; where Go's write
-- to an absent map of a pool account would panic, the pool's reserves are not in its account.
use synthos_collective.Prelude.{
  ℕ, Bool, not, ◌&&◌, ◌||◌, Option, ltb, if◌then◌else◌, ◌==◌, nat_eq, string_eq, String,
}
use synthos_collective.Words.{add64}
use synthos_collective.Text.{join, to_lower, to_upper, trim_space}
use synthos_collective.Text.Numbers.{Parsed, parse_uint, value_of}
use synthos_collective.Dict.{lookup, insert}
use synthos_collective.Chain.Errors.{Error}
use synthos_collective.Chain.Types.{
  Address, Account, Pool, State, Tx, account_of, set_account, metadata_value,
}
use synthos_collective.Chain.Monad.{Result, ok, err}
use synthos_collective.Chain.SafeMath.{safe_add}
use synthos_collective.Chain.Ledger.{asset_of}

-- PoolAddress
unfoldable pub pool_address : String → Address
unfolding to_lower trim_space
pool_address id = join "0xdex_pool_" (to_lower (trim_space id))

-- The asset of a transaction: the one of its metadata, or else its own.
unfoldable pub trade_asset : Tx → String
unfolding to_upper trim_space
trade_asset tx =
    let named = to_upper (trim_space (metadata_value tx.metadata "asset_id")) in
    if named == "" then to_upper (trim_space tx.asset_id) else named

abbrev pub is_tradable : String → Bool
is_tradable id = not (id == "" || id == "SYN")

-- parseTxMetadataUint64 with its error dropped
unfoldable pub metadata_number : Tx → String → ℕ
unfolding parse_uint
metadata_number tx key = value_of (parse_uint (metadata_value tx.metadata key))

-- parseTxMetadataUint64 where an error and 0 are refused alike
unfoldable pub positive_number : Tx → String → ℕ
unfolding parse_uint
positive_number tx key = elim (parse_uint (metadata_value tx.metadata key)) [
  | Parsed.number n ↦ n
  | Parsed.syntax_error ↦ 0
  | Parsed.range_error ↦ 0
]

-- `min > 0 && out < min`
abbrev pub below_minimum : ℕ → ℕ → Bool
below_minimum minimum out = ltb 0 minimum && ltb out minimum

-- safeAdd, with the caller's own error
abbrev pub sum_or : Error → ℕ → ℕ → Result ℕ
unfolding safe_add
sum_or e a b = elim (safe_add a b) [ err _ ↦ err e | ok total ↦ ok total ]

abbrev pub pool_of : String → State → Option Pool
pool_of id s = lookup id s.dex_pools

abbrev pub set_pool : String → Pool → State → State
set_pool id pool s = record s { dex_pools = insert id pool s.dex_pools }

-- A pool's account with what it then holds of SYN and of the asset.
abbrev pub with_reserves : String → ℕ → ℕ → Account → Account
with_reserves id syn asset acc = record acc { balance = syn; assets = insert id asset acc.assets }

-- s.Accounts[poolAddr] = poolAcc, and the reserves of the pool from it.
unfoldable pub settle_pool : String → ℕ → ℕ → Pool → State → State
unfolding pool_address
settle_pool id syn asset pool s =
    let acc = with_reserves id syn asset (account_of (pool_address id) s) in
    set_pool id (record pool { syn_reserve = syn; asset_reserve = asset })
      (set_account (pool_address id) acc s)

-- The sender with the fee charged, `syn` and `asset` paid, and what it gets added.
abbrev pub settle_sender : Tx → String → (ℕ → ℕ) → (ℕ → ℕ) → State → State
settle_sender tx id balance held s =
    let acc = account_of tx.from s in
    set_account tx.from
      (record acc {
        balance = balance acc.balance;
        assets = insert id (held (asset_of id acc)) acc.assets;
        nonce = add64 acc.nonce 1;
      })
      s
