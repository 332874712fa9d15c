-- ===== src/Chain/Dex/Quote.antt =====
-- dex.go: what GetAmountOut promises, and the invariant of Swap.
use synthos_collective.Prelude.{
  ℕ, ◌+◌, ◌-◌, ◌*◌, ◌/◌, ◌≤◌, ◌<◌, ◌≡◌, ap, Bool, true, false, some, arith, String, string_eq,
  nat_eq,
}
use native.Mathlib.Decide.{dec_lt}
use synthos_collective.Words.{sub64_exact, IsWord}
use synthos_collective.Dict.{lookup, lookup-insert_self}
use synthos_collective.Chain.Errors.{Error}
use synthos_collective.Chain.Types.{Pool}
use synthos_collective.Chain.Monad.{ok, err}
use synthos_collective.Chain.Dex.{get_amount_out, swap, swapped, reserve_in, reserve_out, Pools}

-- The division that a successful quote makes.
quote_value :
    (a ri ro : ℕ) (out : ℕ)
    → get_amount_out a ri ro ≡ ok out
    → (0 < a) × (0 < ri) × (0 < ro) × (out ≡ a * 997 * ro / (ri * 1000 + a * 997))
unfolding get_amount_out
quote_value a ri ro out h = ground arith

div_mul_le : (n d : ℕ) → n / d * d ≤ n
div_mul_le n d = omega arith

-- The fee is taken on the input, so the output is at most the fee-less one.
quote_bounds :
    (a ri ro out : ℕ)
    → 0 < ri
    → 0 < ro
    → out * (ri * 1000 + a * 997) ≤ a * 997 * ro
    → (out < ro) × ((ri + a) * out ≤ a * ro)
quote_bounds a ri ro out hi ho h =
    (elim (dec_lt out ro) [ yes p ↦ p | no p ↦ absurd (short p) ], omega arith)
  where
    short : ¬ (out < ro) → ⊥
    short p =
        let le : ro ≤ out = omega arith in
        let scaled : ro * (ri * 1000 + a * 997) ≤ out * (ri * 1000 + a * 997) = grind arith in
        let positive : 0 < ri * ro = grind arith in omega arith

product_kept :
    (a ri ro out : ℕ) → out < ro → (ri + a) * out ≤ a * ro → ri * ro ≤ (ri + a) * (ro - out)
product_kept a ri ro out lt h =
    let rest = ro - out in
    let split : ro ≡ out + (ro - out) = omega arith in
    omega (arith, ap (λ (t : ℕ). ri * t) split, ap (λ (t : ℕ). a * t) split)

-- A quote is less than the reserve that it is paid from, and the product of the reserves does not
-- fall when the input is added and the output taken.
pub quote_invariant :
    (a ri ro : ℕ) {out : ℕ}
    → get_amount_out a ri ro ≡ ok out
    → (out < ro) × (ri * ro ≤ (ri + a) * (ro - out))
quote_invariant a ri ro {out} h =
    let v = quote_value a ri ro out h in
    let denominator = ri * 1000 + a * 997 in
    let floor : out * denominator ≤ a * 997 * ro = rw v.3 (div_mul_le (a * 997 * ro) denominator) in
    let b = quote_bounds a ri ro out v.1 v.2 floor in (b.0, product_kept a ri ro out b.0 b.1)

abbrev pub product : Pool → ℕ
product pool = pool.syn_reserve * pool.asset_reserve

swapped-product :
    (from_syn : Bool) (a out : ℕ) (pool : Pool)
    → IsWord pool.syn_reserve
    → IsWord pool.asset_reserve
    → get_amount_out a (reserve_in from_syn pool) (reserve_out from_syn pool) ≡ ok out
    → product pool ≤ product (swapped from_syn a out pool)
swapped-product true a out pool hs ha h =
    let q = quote_invariant a pool.syn_reserve pool.asset_reserve h in
    rw (sub64_exact pool.asset_reserve out (omega arith) ha) q.1
swapped-product false a out pool hs ha h =
    let q = quote_invariant a pool.asset_reserve pool.syn_reserve h in
    rw (sub64_exact pool.syn_reserve out (omega arith) hs) (omega arith)

-- A swap that succeeds stores the pool with the input added to one reserve and the output taken
-- from the other, and the product of the reserves does not fall; a swap that fails changes nothing.
pub swap_invariant :
    (id : String) (a : ℕ) (from_syn : Bool) (pools : Pools) {pool : Pool}
    → lookup id pools ≡ some pool
    → IsWord pool.syn_reserve
    → IsWord pool.asset_reserve
    → let (r, pools') = swap id a from_syn pools in
      ((out : ℕ)
        → r ≡ ok out
        → (lookup id pools' ≡ some (swapped from_syn a out pool))
          × (product pool ≤ product (swapped from_syn a out pool)))
      × ((e : Error) → r ≡ err e → pools' ≡ pools)
unfolding swap
swap_invariant id a from_syn pools {pool} found hs ha = (
  λ out h.
      let stored = lookup-insert_self id (swapped from_syn a out pool) pools in
      ground (arith, swapped-product from_syn a out pool hs ha),
  λ e h. ground arith,
)
