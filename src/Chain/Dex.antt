-- ===== src/Chain/Dex.antt =====
-- dex.go: the quote, the integer square root and the pools of the DEX object.
pub mod Quote
pub mod Root
pub mod Shares
mod Tests
use synthos_collective.Prelude.{
  ℕ, zero, suc, ◌+◌, ◌-◌, ◌*◌, ◌/◌, ◌^◌, Bool, true, false, not, ◌&&◌, ◌||◌, Option, none, some,
  get_or, List, [], ◌∷◌, ltb, leb, if◌then◌else◌, ◌==◌, nat_eq, string_eq, String,
}
use synthos_collective.Words.{u64_mod, add64, sub64, mul64}
use synthos_collective.Dict.{Dict, lookup, insert, delete}
use synthos_collective.Chain.Errors.{Error, DexError, dex, runtime_panic}
use synthos_collective.Chain.Types.{Address, Pool}
use synthos_collective.Chain.Monad.{
  Result, ok, err, Action, pure, raise, gets, or_raise, lift, raise_if, modify, ◌>>=◌, ◌>>◌,
}
use synthos_collective.Chain.SafeMath.{safe_add}

-- The high word of bits.Mul64 is 0 exactly when the product fits.
abbrev pub overflows : ℕ → Bool
overflows n = not (ltb n u64_mod)

-- GetAmountOut: x * y = k with a fee of 30 basis points.
unfoldable pub get_amount_out : ℕ → ℕ → ℕ → Result ℕ
get_amount_out amount_in reserve_in reserve_out =
    let with_fee = amount_in * 997 in
    let numerator = with_fee * reserve_out in
    let scaled = reserve_in * 1000 in
    let denominator = scaled + with_fee in
    if amount_in == 0
    then err (dex DexError.insufficient_input)
    else if reserve_in == 0 || reserve_out == 0
    then err (dex DexError.insufficient_liquidity)
    else if overflows with_fee
    then err (dex DexError.input_overflow)
    else if overflows numerator
    then err (dex DexError.numerator_overflow)
    else if overflows scaled
    then err (dex DexError.reserve_overflow)
    else if overflows denominator || denominator == 0
    then err (dex DexError.denominator_overflow)
    else ok (numerator / denominator)

-- How sqrtUint64 can end. `divide_by_zero` is a panic.
pub data SquareRoot : Type 0 where
  root : ℕ → SquareRoot
  divide_by_zero out_of_fuel : SquareRoot

-- `for z < y { y = z; z = (x/z + z) / 2 }`
unfoldable pub sqrt_loop : ℕ → ℕ → ℕ → ℕ → SquareRoot
sqrt_loop zero x y z = out_of_fuel
sqrt_loop (suc fuel) x y z =
    let next = sqrt_loop fuel x z (add64 (x / z) z / 2) in
    if ltb z y then (if z == 0 then divide_by_zero else next) else root y

-- `y` falls in every round, so `x + 1` rounds are enough.
unfoldable pub sqrt_uint64 : ℕ → SquareRoot
sqrt_uint64 x = if x == 0 then root 0 else sqrt_loop (suc x) x x (add64 x 1 / 2)

abbrev pub root_or_panic : SquareRoot → Result ℕ
root_or_panic (root n) = ok n
root_or_panic divide_by_zero = err runtime_panic
root_or_panic out_of_fuel = err runtime_panic

-- The shares that a deposit mints, in AddLiquidity and in applyDEXTx alike.
unfoldable pub minted_shares : ℕ → ℕ → Pool → Result ℕ
minted_shares syn asset pool =
    if pool.total_shares == 0
    then elim (root_or_panic (sqrt_uint64 (mul64 syn asset))) [
      | ok shares ↦ ok (if shares == 0 then syn else shares)
      | err e ↦ err e
    ]
    else if pool.syn_reserve == 0 || pool.asset_reserve == 0
    then err (dex DexError.zero_reserve)
    else let share_syn = mul64 syn pool.total_shares / pool.syn_reserve in
      let share_asset = mul64 asset pool.total_shares / pool.asset_reserve in
      ok (if ltb share_syn share_asset then share_syn else share_asset)

abbrev pub empty_pool : String → Pool
empty_pool asset_id = record {
  asset_id = asset_id;
  syn_reserve = 0;
  asset_reserve = 0;
  total_shares = 0;
  shares = [];
}

abbrev pub Pools : Type 0
Pools = Dict String Pool

-- pool.Shares[provider]
abbrev pub shares_of : Address → Pool → ℕ
shares_of provider pool = get_or (lookup provider pool.shares) 0

-- The pool after a deposit.
unfoldable pub deposit : ℕ → ℕ → ℕ → Address → Pool → Pool
deposit syn asset shares provider pool = record pool {
  syn_reserve = add64 pool.syn_reserve syn;
  asset_reserve = add64 pool.asset_reserve asset;
  total_shares = add64 pool.total_shares shares;
  shares = insert provider (add64 (shares_of provider pool) shares) pool.shares;
}

-- AddLiquidity. A missing pool is created before the checks, and stays on an error.
unfoldable pub add_liquidity : String → ℕ → ℕ → Address → Action Pools ℕ
add_liquidity asset_id syn asset provider = do
  pool ← gets (λ pools. get_or (lookup asset_id pools) (empty_pool asset_id))
  modify (insert asset_id pool)
  shares ← lift (minted_shares syn asset pool)
  raise_if (shares == 0) (dex DexError.nothing_minted)
  modify (insert asset_id (deposit syn asset shares provider pool))
  pure shares

-- The pool after a withdrawal of `shares`, which the provider holds.
unfoldable pub withdraw : ℕ → ℕ → ℕ → Address → Pool → Pool
withdraw shares syn_out asset_out provider pool =
    let held = shares_of provider pool - shares in
    record pool {
      syn_reserve = sub64 pool.syn_reserve syn_out;
      asset_reserve = sub64 pool.asset_reserve asset_out;
      total_shares = sub64 pool.total_shares shares;
      shares = if held == 0 then delete provider pool.shares else insert provider held pool.shares;
    }

-- (shares * reserve) / total
abbrev pub pro_rata : ℕ → ℕ → ℕ → ℕ
pro_rata shares reserve total = mul64 shares reserve / total

-- RemoveLiquidity
unfoldable pub remove_liquidity : String → ℕ → Address → Action Pools (ℕ × ℕ)
remove_liquidity asset_id shares provider = do
  pool ← or_raise (← gets (lookup asset_id)) (dex DexError.pool_not_found)
  raise_if (shares == 0) (dex DexError.invalid_shares)
  raise_if (pool.total_shares == 0 || (pool.syn_reserve == 0 || pool.asset_reserve == 0))
      (dex DexError.insufficient_liquidity)
  raise_if (ltb (shares_of provider pool) shares) (dex DexError.insufficient_shares)
  let syn_out = pro_rata shares pool.syn_reserve pool.total_shares
  let asset_out = pro_rata shares pool.asset_reserve pool.total_shares
  raise_if (syn_out == 0 || asset_out == 0) (dex DexError.zero_output)
  modify (insert asset_id (withdraw shares syn_out asset_out provider pool))
  pure (syn_out, asset_out)

-- The pool after a swap, by its direction.
abbrev pub swapped : Bool → ℕ → ℕ → Pool → Pool
swapped from_syn amount_in amount_out pool =
    if from_syn
    then record pool {
      syn_reserve = pool.syn_reserve + amount_in;
      asset_reserve = sub64 pool.asset_reserve amount_out;
    }
    else record pool {
      asset_reserve = pool.asset_reserve + amount_in;
      syn_reserve = sub64 pool.syn_reserve amount_out;
    }

abbrev pub reserve_in : Bool → Pool → ℕ
reserve_in from_syn pool = if from_syn then pool.syn_reserve else pool.asset_reserve

abbrev pub reserve_out : Bool → Pool → ℕ
reserve_out from_syn pool = if from_syn then pool.asset_reserve else pool.syn_reserve

-- Swap. The two branches of the code are one, by the direction; safeAdd's sum is the new reserve.
unfoldable pub swap : String → ℕ → Bool → Action Pools ℕ
unfolding safe_add
swap asset_id amount_in from_syn = do
  pool ← or_raise (← gets (lookup asset_id)) (dex DexError.pool_not_found)
  amount_out ←
      lift (get_amount_out amount_in (reserve_in from_syn pool) (reserve_out from_syn pool))
  elim (safe_add (reserve_in from_syn pool) amount_in) [
    | err _ ↦ raise (dex DexError.reserve_overflow)
    | ok _ ↦ do
      modify (insert asset_id (swapped from_syn amount_in amount_out pool))
      pure amount_out
  ]

-- SeedPool
unfoldable pub seed_pool : String → ℕ → ℕ → Pools → Pools
seed_pool asset_id syn asset = insert asset_id (record {
  asset_id = asset_id;
  syn_reserve = syn;
  asset_reserve = asset;
  total_shares = syn;
  shares = [];
})
