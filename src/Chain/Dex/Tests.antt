-- ===== src/Chain/Dex/Tests.antt =====
-- dex.go at concrete inputs.
use synthos_collective.Prelude.{
  ℕ, ◌+◌, ◌-◌, ◌*◌, ◌≤◌, ◌<◌, ◌≡◌, ◌↔◌, refl, true, some, [], ◌∷◌, arith, string_eq,
}
use synthos_collective.Words.{add64, sub64, mul64}
use synthos_collective.Dict.{lookup, insert, delete}
use synthos_collective.Chain.Errors.{Error, runtime_panic}
use synthos_collective.Chain.Types.{Pool}
use synthos_collective.Chain.Monad.{ok, err}
use synthos_collective.Chain.Dex.{
  Pools, get_amount_out, swap, swapped, add_liquidity, remove_liquidity, sqrt_uint64, sqrt_loop,
  minted_shares, withdraw, deposit, root, empty_pool,
}
use synthos_collective.Chain.Dex.Quote.{quote_invariant, swap_invariant, product}
use synthos_collective.Chain.Dex.Root.{minted_panics, sqrt_uint64-IsRoot, IsRoot}
use synthos_collective.Chain.Dex.Shares.{
  IsSound, NoDilution, remove_liquidity-IsSound, deposit-IsSound,
}

abbrev pool : Pool
pool = record {
  asset_id = "GOLD";
  syn_reserve = 10_000;
  asset_reserve = 40_000;
  total_shares = 20_000;
  shares = ("alice", 15_000) ∷ ("bob", 5_000) ∷ [];
}

abbrev market : Pools
market = ("GOLD", pool) ∷ []

quote_test : get_amount_out 1000 10_000 40_000 ≡ ok 3626
unfolding get_amount_out
quote_test = refl

quote_invariant_example : (3626 < 40_000) × (10_000 * 40_000 ≤ (10_000 + 1000) * (40_000 - 3626))
quote_invariant_example = quote_invariant 1000 10_000 40_000 quote_test

swap_invariant_example :
    let (r, market') = swap "GOLD" 1000 true market in
    ((out : ℕ)
      → r ≡ ok out
      → (lookup "GOLD" market' ≡ some (swapped true 1000 out pool))
        × (product pool ≤ product (swapped true 1000 out pool)))
    × ((e : Error) → r ≡ err e → market' ≡ market)
unfolding lookup
swap_invariant_example =
    swap_invariant "GOLD" 1000 true market {pool = pool} refl (omega arith) (omega arith)

sqrt_uint64-IsRoot_example : (r : ℕ) × (sqrt_uint64 99 ≡ root r) × IsRoot 99 r
sqrt_uint64-IsRoot_example = sqrt_uint64-IsRoot 99 (omega arith)

sqrt_test : sqrt_uint64 18446744073709551614 ≡ root 4294967295
unfolding sqrt_uint64 sqrt_loop add64
sqrt_test = refl

-- A first deposit of 1 SYN and the largest amount of an asset stops the process.
panic_test : (add_liquidity "NEW" 1 18446744073709551615 "eve" market).0 ≡ err runtime_panic
unfolding add_liquidity minted_shares sqrt_uint64 sqrt_loop add64 mul64 lookup insert
panic_test = refl

pool-IsSound : IsSound pool
pool-IsSound = omega arith

remove_test : (remove_liquidity "GOLD" 4_000 "bob" market).0 ≡ ok (2_000, 8_000)
unfolding remove_liquidity withdraw mul64 sub64 lookup insert delete
remove_test = refl

remove_liquidity-IsSound_example :
    let pool' = withdraw 4_000 2_000 8_000 "bob" pool in
    (lookup "GOLD" (remove_liquidity "GOLD" 4_000 "bob" market).1 ≡ some pool')
    × (2_000 ≤ pool.syn_reserve)
    × (8_000 ≤ pool.asset_reserve)
    × IsSound pool'
    × NoDilution pool pool'
unfolding lookup
remove_liquidity-IsSound_example =
    remove_liquidity-IsSound "GOLD" 4_000 "bob" market {pool = pool} refl pool-IsSound remove_test

minted_test : minted_shares 1_000 4_100 pool ≡ ok 2_000
unfolding minted_shares mul64
minted_test = refl

deposit-IsSound_example :
    let pool' = deposit 1_000 4_100 2_000 "bob" pool in IsSound pool' × NoDilution pool pool'
deposit-IsSound_example =
    deposit-IsSound 1_000 4_100 "bob" pool pool-IsSound (omega arith) minted_test (omega arith)
      (omega arith) (omega arith)

abbrev fresh_pool : Pool
fresh_pool = empty_pool "NEW"

minted_panics_example :
    (minted_shares 4294967295 4294967297 fresh_pool ≡ err runtime_panic)
    ↔ (mul64 4294967295 4294967297 ≡ 18446744073709551615)
minted_panics_example = minted_panics 4294967295 4294967297 fresh_pool refl
