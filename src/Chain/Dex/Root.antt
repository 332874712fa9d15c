-- ===== src/Chain/Dex/Root.antt =====
-- dex.go: sqrtUint64 is the integer square root on every input but the largest, where it divides by
-- zero.
use synthos_collective.Prelude.{
  ℕ, zero, suc, ◌+◌, ◌*◌, ◌/◌, ◌≤◌, ◌<◌, ◌≡◌, ◌≢◌, ◌↔◌, refl, arith, ltb, ◌==◌, nat_eq, inl, inr,
  Bool-cases, false,
}
use native.Mathlib.Decide.{dec_lt}
use synthos_collective.Words.{u64_mod, add64, add64_exact, mul64, mul64-lt}
use synthos_collective.Chain.Errors.{runtime_panic}
use synthos_collective.Chain.Types.{Pool}
use synthos_collective.Chain.Monad.{err}
use synthos_collective.Chain.Dex.{root, divide_by_zero, sqrt_loop, sqrt_uint64, minted_shares}

-- Four times a product is at most the square of the sum.
four_products : (a b : ℕ) → 4 * (a * b) ≤ (a + b) * (a + b)
four_products zero b = grind arith
four_products (suc a) zero = grind arith
four_products (suc a) (suc b) = omega (arith, four_products a b)

square_mono : (a b : ℕ) → a ≤ b → a * a ≤ b * b
square_mono a b h = grind arith

square_above : (q z n x : ℕ) → x < (q + 1) * z → q + 1 + z ≤ 2 * n → x < n * n
square_above q z n x h le =
    let four = four_products (q + 1) z in
    let square : (q + 1 + z) * (q + 1 + z) ≤ 2 * n * (2 * n) = square_mono (q + 1 + z) (2 * n) le in
    omega arith

-- A Newton step from any positive `z` stays above the root.
newton_above : (x z : ℕ) → 0 < z → x < ((x / z + z) / 2 + 1) * ((x / z + z) / 2 + 1)
newton_above x z h =
    square_above (x / z) z ((x / z + z) / 2 + 1) x (quotient_above x z h) (omega arith)
  where
    quotient_above : (x z : ℕ) → 0 < z → x < (x / z + 1) * z
    quotient_above x z h = omega arith

-- Where the step does not go down, the root has been reached.
newton_stops : (x z : ℕ) → 0 < z → z ≤ (x / z + z) / 2 → z * z ≤ x
newton_stops x z h le =
    let quotient : z ≤ x / z = omega arith in
    let square : z * z ≤ x / z * z = grind arith in
    let floor : x / z * z ≤ x = omega arith in omega arith

newton_small : (x z : ℕ) → 0 < z → z ≤ x → (x / z + z ≤ x + 1) × (0 < x / z)
newton_small x z h le = (sum_le (x / z) z x one h floor, one)
  where
    floor : x / z * z ≤ x
    floor = omega arith

    one : 0 < x / z
    one = grind arith

    sum_le : (q z x : ℕ) → 0 < q → 0 < z → q * z ≤ x → q + z ≤ x + 1
    sum_le zero z x hq hz h = absurd (omega arith)
    sum_le (suc q) zero x hq hz h = absurd (omega arith)
    sum_le (suc q) (suc z) x hq hz h = omega arith

-- What holds of `y` and `z` between two rounds.
record Bracket (x y z : ℕ) : Type 0 where
  positive : 0 < z
  z_above : x < (z + 1) * (z + 1)
  y_above : x < (y + 1) * (y + 1)
  stop_below : y ≤ z → y * y ≤ x
  y_small : y ≤ x

step-Bracket :
    (x y z : ℕ) → x + 1 < u64_mod → z < y → Bracket x y z → Bracket x z (add64 (x / z) z / 2)
step-Bracket x y z fits lt b =
    let small = newton_small x z b.positive (omega arith) in
    rw (add64_exact (x / z) z (omega arith)) (record {
      positive = omega arith;
      z_above = newton_above x z b.positive;
      y_above = b.z_above;
      stop_below = newton_stops x z b.positive;
      y_small = omega arith;
    })

-- `r` is the integer square root of `x`.
abbrev pub IsRoot : ℕ → ℕ → Type 0
IsRoot x r = (r * r ≤ x) × (x < (r + 1) * (r + 1))

sqrt_loop_lem :
    (fuel x y z : ℕ)
    → y < fuel
    → x + 1 < u64_mod
    → Bracket x y z
    → (r : ℕ) × (sqrt_loop fuel x y z ≡ root r) × IsRoot x r
unfolding sqrt_loop
sqrt_loop_lem zero x y z h fits b = absurd (omega arith)
sqrt_loop_lem (suc fuel) x y z h fits b = elim (Bool-cases (ltb z y)) [
  | inl more ↦
      let positive : (z == 0) ≡ false = ground (arith, b.positive) in
      rw (more, positive)
        (sqrt_loop_lem fuel x z (add64 (x / z) z / 2) (ground arith) fits
          (step-Bracket x y z fits (ground arith) b))
  | inr done ↦ rw done (y, refl, (b.stop_below (ground arith), b.y_above))
]

start-Bracket : (x : ℕ) → 0 < x → x + 1 < u64_mod → Bracket x x (add64 x 1 / 2)
start-Bracket x h fits = rw (add64_exact x 1 fits) (record {
  positive = omega arith;
  z_above = square_above x 1 ((x + 1) / 2 + 1) x (omega arith) (omega arith);
  y_above = grind arith;
  stop_below = λ le. let one : x ≡ 1 = omega arith in rw one (omega arith);
  y_small = omega arith;
})

-- On every input below the largest uint64 the loop ends by its test with the integer square root.
pub sqrt_uint64-IsRoot : (x : ℕ) → x + 1 < u64_mod → (r : ℕ) × (sqrt_uint64 x ≡ root r) × IsRoot x r
unfolding sqrt_uint64
sqrt_uint64-IsRoot x fits = elim (Bool-cases (x == 0)) [
  | inl e ↦
      let none_left : x ≡ 0 = ground arith in rw none_left (0, refl, (omega arith, omega arith))
  | inr e ↦
      let positive : 0 < x = ground arith in
      rw e (
        sqrt_loop_lem (suc x) x x (add64 x 1 / 2) (omega arith) fits
          (start-Bracket x positive fits))
]

-- On the largest uint64, `x + 1` wraps to 0 and the loop divides by it.
pub sqrt_uint64_max : sqrt_uint64 18446744073709551615 ≡ divide_by_zero
unfolding sqrt_uint64 sqrt_loop add64
sqrt_uint64_max = refl

minted_panics_at :
    (syn asset x : ℕ) (pool : Pool)
    → pool.total_shares ≡ 0
    → mul64 syn asset ≡ x
    → x ≡ 18446744073709551615
    → minted_shares syn asset pool ≡ err runtime_panic
unfolding minted_shares
minted_panics_at syn asset x pool empty p e =
    let largest : sqrt_uint64 (mul64 syn asset) ≡ divide_by_zero = rw (p, e) sqrt_uint64_max in
    ground arith

minted_returns :
    (syn asset : ℕ) (pool : Pool)
    → pool.total_shares ≡ 0
    → mul64 syn asset + 1 < u64_mod
    → minted_shares syn asset pool ≢ err runtime_panic
unfolding minted_shares
minted_returns syn asset pool empty fits =
    let (r, e, _) = sqrt_uint64-IsRoot (mul64 syn asset) fits in ground arith

-- The first deposit into a pool panics exactly when the wrapped product of its two amounts is the
-- largest uint64.
pub minted_panics :
    (syn asset : ℕ) (pool : Pool)
    → pool.total_shares ≡ 0
    → (minted_shares syn asset pool ≡ err runtime_panic) ↔ (mul64 syn asset ≡ 18446744073709551615)
minted_panics syn asset pool empty = (
  λ h. elim (dec_lt (mul64 syn asset + 1) u64_mod) [
    | yes fits ↦ absurd (minted_returns syn asset pool empty fits h)
    | no big ↦ omega (arith, mul64-lt syn asset)
  ],
  λ e. minted_panics_at syn asset (mul64 syn asset) pool empty refl e,
)
