-- ===== src/Chain/Dex/Shares.antt =====
-- dex.go: liquidity providers get no more than their part of a pool.
use synthos_collective.Prelude.{
  ℕ, ◌+◌, ◌-◌, ◌*◌, ◌/◌, ◌%◌, ◌≤◌, ◌<◌, ◌≡◌, ap, some, inl, inr, arith, String, string_eq, nat_eq,
  Option-cases,
}
use native.Mathlib.Decide.{dec_lt}
use synthos_collective.Words.{u64_mod, mul64, IsWord, sub64_exact, sub64-lt, add64_exact}
use synthos_collective.Dict.{lookup, insert, lookup-insert_self}
use synthos_collective.Dict.Sum.{
  sum_values, sum_values-insert, sum_values-delete, measure-le-sum_values,
}
use synthos_collective.Chain.Types.{Address, Pool}
use synthos_collective.Chain.Monad.{ok}
use synthos_collective.Chain.Dex.{
  Pools, shares_of, withdraw, deposit, remove_liquidity, minted_shares, pro_rata,
}

-- Every share of `pool'` stands for at least as much of each reserve as a share of `pool` did.
abbrev pub NoDilution : Pool → Pool → Type 0
NoDilution pool pool' =
    (pool.syn_reserve * pool'.total_shares ≤ pool'.syn_reserve * pool.total_shares)
    × (pool.asset_reserve * pool'.total_shares ≤ pool'.asset_reserve * pool.total_shares)

abbrev pub share_value : ℕ → ℕ
share_value n = n

-- The shares handed out do not exceed the total, and every quantity is a uint64.
pub record IsSound (pool : Pool) : Type 0 where
  pub backed : sum_values share_value pool.shares ≤ pool.total_shares
  pub total_word : IsWord pool.total_shares
  pub syn_word : IsWord pool.syn_reserve
  pub asset_word : IsWord pool.asset_reserve

shares_of-le :
    (provider : Address) (pool : Pool) → IsSound pool → shares_of provider pool ≤ pool.total_shares
shares_of-le provider pool h =
    let part = measure-le-sum_values share_value provider pool.shares in
    elim (Option-cases (lookup provider pool.shares)) [
      | inl missing ↦ rw missing (omega arith)
      | inr (n, found) ↦
          let at : n ≤ sum_values share_value pool.shares = rw found at part in
          rw found (omega arith)
    ]

-- Wrapping a product and rounding a quotient both go down.
pro_rata-le : (shares reserve total : ℕ) → pro_rata shares reserve total * total ≤ shares * reserve
unfolding mul64
pro_rata-le shares reserve total = omega (arith, floor (shares * reserve % u64_mod) total)
  where
    floor : (n d : ℕ) → n / d * d ≤ n
    floor n d = omega arith

pub cancel_product : (a b t : ℕ) → 0 < t → a * t ≤ b * t → a ≤ b
cancel_product a b t pos h = elim (dec_lt b a) [
  | no p ↦ omega arith
  | yes p ↦ let bigger : (b + 1) * t ≤ a * t = grind arith in absurd (omega arith)
]

pro_rata-le-reserve :
    (shares reserve total : ℕ)
    → 0 < total
    → shares ≤ total
    → pro_rata shares reserve total ≤ reserve
pro_rata-le-reserve shares reserve total pos le =
    let part = pro_rata-le shares reserve total in
    let whole : shares * reserve ≤ total * reserve = grind arith in
    cancel_product (pro_rata shares reserve total) reserve total pos (omega arith)

-- What a withdrawal leaves for each remaining share is at least what each share stood for.
remaining_value :
    (n reserve shares total : ℕ)
    → n ≤ reserve
    → shares ≤ total
    → n * total ≤ shares * reserve
    → reserve * (total - shares) ≤ (reserve - n) * total
remaining_value n reserve shares total hn hs h =
    let left : reserve ≡ n + (reserve - n) = omega arith in
    let kept : total ≡ shares + (total - shares) = omega arith in
    omega (arith, ap (λ (t : ℕ). t * total) left, ap (λ (t : ℕ). reserve * t) kept)

withdraw-IsSound :
    (shares syn asset : ℕ) (provider : Address) (pool : Pool)
    → IsSound pool
    → shares ≤ shares_of provider pool
    → syn ≤ pool.syn_reserve
    → asset ≤ pool.asset_reserve
    → IsSound (withdraw shares syn asset provider pool)
unfolding withdraw
withdraw-IsSound shares syn asset provider pool h le hs ha =
    let part = shares_of-le provider pool h in
    let held = shares_of provider pool - shares in
    let written = sum_values-insert share_value provider held pool.shares in
    let removed = sum_values-delete share_value provider pool.shares in
    simp (sub64_exact pool.total_shares shares (omega arith) h.total_word) (record {
      backed = elim (Option-cases (lookup provider pool.shares)) [
        | inl missing ↦ ground arith
        | inr (n, found) ↦ ground arith
      ];
      total_word = omega arith;
      syn_word = sub64-lt pool.syn_reserve syn;
      asset_word = sub64-lt pool.asset_reserve asset;
    })

withdraw-NoDilution :
    (shares syn asset : ℕ) (provider : Address) (pool : Pool)
    → IsSound pool
    → shares ≤ pool.total_shares
    → syn ≤ pool.syn_reserve
    → asset ≤ pool.asset_reserve
    → syn * pool.total_shares ≤ shares * pool.syn_reserve
    → asset * pool.total_shares ≤ shares * pool.asset_reserve
    → NoDilution pool (withdraw shares syn asset provider pool)
unfolding withdraw
withdraw-NoDilution shares syn asset provider pool h hn hs ha vs va =
    simp
      (
        sub64_exact pool.total_shares shares hn h.total_word,
        sub64_exact pool.syn_reserve syn hs h.syn_word,
        sub64_exact pool.asset_reserve asset ha h.asset_word,
      )
      (
        remaining_value syn pool.syn_reserve shares pool.total_shares hs hn vs,
        remaining_value asset pool.asset_reserve shares pool.total_shares ha hn va,
      )

-- The pool that a removal works on, and what it pays.
abbrev removal : ℕ → Address → Pool → Pool
removal shares provider pool =
    withdraw shares (pro_rata shares pool.syn_reserve pool.total_shares)
      (pro_rata shares pool.asset_reserve pool.total_shares) provider pool

removal_guards :
    (id : String) (shares : ℕ) (provider : Address) (pools : Pools) (pool : Pool) (out : ℕ × ℕ)
    → lookup id pools ≡ some pool
    → (remove_liquidity id shares provider pools).0 ≡ ok out
    → (shares ≤ shares_of provider pool)
      × (0 < pool.total_shares)
      × (out ≡ (
        pro_rata shares pool.syn_reserve pool.total_shares,
        pro_rata shares pool.asset_reserve pool.total_shares,
      ))
      × ((remove_liquidity id shares provider pools).1
          ≡ insert id (removal shares provider pool) pools)
unfolding remove_liquidity
removal_guards id shares provider pools pool out found h = ground arith

-- Removing liquidity from a sound pool pays at most the reserves, leaves a sound pool, and leaves
-- the other providers' shares worth at least what they were.
pub remove_liquidity-IsSound :
    (id : String) (shares : ℕ) (provider : Address) (pools : Pools) {pool : Pool} {syn asset : ℕ}
    → lookup id pools ≡ some pool
    → IsSound pool
    → (remove_liquidity id shares provider pools).0 ≡ ok (syn, asset)
    → let pool' = withdraw shares syn asset provider pool in
      (lookup id (remove_liquidity id shares provider pools).1 ≡ some pool')
      × (syn ≤ pool.syn_reserve)
      × (asset ≤ pool.asset_reserve)
      × IsSound pool'
      × NoDilution pool pool'
remove_liquidity-IsSound id shares provider pools {pool} {syn} {asset} found h e =
    let g = removal_guards id shares provider pools pool (syn, asset) found e in
    let owned = shares_of-le provider pool h in
    let total = pool.total_shares in
    let le : shares ≤ total = omega arith in
    let syn_out = pro_rata shares pool.syn_reserve total in
    let asset_out = pro_rata shares pool.asset_reserve total in
    let s_eq : syn ≡ syn_out = ap (λ (t : ℕ × ℕ). t.0) g.2 in
    let a_eq : asset ≡ asset_out = ap (λ (t : ℕ × ℕ). t.1) g.2 in
    let s_le = pro_rata-le-reserve shares pool.syn_reserve total g.1 le in
    let a_le = pro_rata-le-reserve shares pool.asset_reserve total g.1 le in
    rw (s_eq, a_eq)
      (
        rw g.3 (lookup-insert_self id (removal shares provider pool) pools),
        s_le,
        a_le,
        withdraw-IsSound shares syn_out asset_out provider pool h g.0 s_le a_le,
        withdraw-NoDilution shares syn_out asset_out provider pool h le s_le a_le
            (pro_rata-le shares pool.syn_reserve total)
            (pro_rata-le shares pool.asset_reserve total),
      )

minted_fair :
    (syn asset : ℕ) (pool : Pool) (shares : ℕ)
    → 0 < pool.total_shares
    → minted_shares syn asset pool ≡ ok shares
    → (shares ≤ pro_rata syn pool.total_shares pool.syn_reserve)
      × (shares ≤ pro_rata asset pool.total_shares pool.asset_reserve)
unfolding minted_shares
minted_fair syn asset pool shares pos h = ground arith

scale_le : (n p r m : ℕ) → n ≤ p → p * r ≤ m → n * r ≤ m
scale_le n p r m h k = let grown : n * r ≤ p * r = grind arith in omega arith

added_value : (r d t n : ℕ) → n * r ≤ d * t → r * (t + n) ≤ (r + d) * t
added_value r d t n h = omega arith

-- Minting for a pool that already has shares dilutes no provider, where the new reserves and the
-- new total fit in 64 bits; the pool stays sound.
pub deposit-IsSound :
    (syn asset : ℕ) (provider : Address) (pool : Pool) {shares : ℕ}
    → IsSound pool
    → 0 < pool.total_shares
    → minted_shares syn asset pool ≡ ok shares
    → pool.syn_reserve + syn < u64_mod
    → pool.asset_reserve + asset < u64_mod
    → pool.total_shares + shares < u64_mod
    → let pool' = deposit syn asset shares provider pool in IsSound pool' × NoDilution pool pool'
unfolding deposit
deposit-IsSound syn asset provider pool {shares} h pos minted fs fa ft =
    let owned = shares_of-le provider pool h in
    let fair = minted_fair syn asset pool shares pos minted in
    let held = shares_of provider pool + shares in
    let total = pool.total_shares in
    let written = sum_values-insert share_value provider held pool.shares in
    let syn_part = pro_rata syn total pool.syn_reserve in
    let asset_part = pro_rata asset total pool.asset_reserve in
    simp
      (
        add64_exact pool.total_shares shares ft,
        add64_exact pool.syn_reserve syn fs,
        add64_exact pool.asset_reserve asset fa,
        add64_exact (shares_of provider pool) shares (omega arith),
      )
      (
        record {
          backed = elim (Option-cases (lookup provider pool.shares)) [
            | inl missing ↦ ground arith
            | inr (n, found) ↦ ground arith
          ];
          total_word = omega arith;
          syn_word = omega arith;
          asset_word = omega arith;
        },
        (
          added_value pool.syn_reserve syn total shares (
              scale_le shares syn_part pool.syn_reserve (syn * total) fair.0
                (pro_rata-le syn total pool.syn_reserve)),
          added_value pool.asset_reserve asset total shares (
              scale_le shares asset_part pool.asset_reserve (asset * total) fair.1
                (pro_rata-le asset total pool.asset_reserve)),
        ),
      )
