-- ===== src/Chain/OrderBook/Crossing.antt =====
-- orderbook.go: an order that is not filled crosses nothing that is left.
use synthos_collective.Prelude.{
  ℕ, ◌≤◌, ◌<◌, ◌≡◌, refl, true, List, [], ◌∷◌, arith, All, nat_eq, min, ltb, not, ◌||◌, inl, inr,
  Bool-cases, ◌==◌,
}
use synthos_collective.Words.{add64}
use synthos_collective.Chain.OrderBook.{
  Order, Side, buy, sell, is_beyond, match_orders, fill_amount, add_fill,
}
use synthos_collective.Chain.OrderBook.Fills.{IsOpen, left, fill_exact, match_orders-volume}

-- `p` is no better than `o` for the taker's side.
abbrev pub IsBehind : Side → Order → Order → Type 0
IsBehind buy o p = o.price ≤ p.price
IsBehind sell o p = p.price ≤ o.price

-- The best price first.
abbrev pub IsPriced : Side → List Order → Type 0
IsPriced side [] = Unit
IsPriced side (o ∷ rest) = All (IsBehind side o) rest × IsPriced side rest

abbrev pub Beyond : Side → ℕ → Order → Type 0
Beyond buy limit o = limit < o.price
Beyond sell limit o = o.price < limit

outside_after :
    (side : Side) (limit : ℕ) (o : Order) (os : List Order)
    → Beyond side limit o
    → All (IsBehind side o) os
    → All (Beyond side limit) os
outside_after side limit o [] h k = tt
outside_after buy limit o (p ∷ rest) h k =
    (omega (arith, h, k.0), outside_after buy limit o rest h k.1)
outside_after sell limit o (p ∷ rest) h k =
    (omega (arith, h, k.0), outside_after sell limit o rest h k.1)

outside_first :
    (side : Side) (taker maker : Order)
    → (not (ltb taker.filled taker.amount) || is_beyond side taker maker) ≡ true
    → taker.filled < taker.amount
    → Beyond side taker.price maker
outside_first buy taker maker h k = ground arith
outside_first sell taker maker h k = ground arith

match_orders-amount :
    (side : Side) (taker : Order) (makers : List Order)
    → (match_orders side taker makers).taker.amount ≡ taker.amount
unfolding match_orders
match_orders-amount side taker [] = refl
match_orders-amount side taker (maker ∷ rest) =
    let n = fill_amount taker maker in
    let later = match_orders-amount side (add_fill n taker) rest in
    elim (Bool-cases (not (ltb taker.filled taker.amount) || is_beyond side taker maker)) [
      | inl ends ↦ rw ends refl
      | inr goes ↦ rw goes later
    ]

-- For a taker and makers that are not filled beyond their amounts, with the makers in price order:
-- where the taker is not filled after the matching, all makers that are left are priced beyond its
-- limit.
pub match_orders-Beyond :
    (side : Side) (taker : Order) (makers : List Order)
    → IsOpen taker
    → All IsOpen makers
    → IsPriced side makers
    → (match_orders side taker makers).taker.filled < (match_orders side taker makers).taker.amount
    → All (Beyond side taker.price) (match_orders side taker makers).makers
unfolding match_orders
match_orders-Beyond side taker [] a b c h = tt
match_orders-Beyond side taker (maker ∷ rest) a b c h =
    let n = fill_amount taker maker in
    let exact = fill_exact taker maker a b.0 in
    let next : IsOpen (add_fill n taker) = (omega arith, a.1) in
    let later = match_orders-Beyond side (add_fill n taker) rest next b.1 c.1 in
    let total = match_orders-volume side (add_fill n taker) rest next b.1 in
    let amount = match_orders-amount side (add_fill n taker) rest in
    elim (Bool-cases (not (ltb taker.filled taker.amount) || is_beyond side taker maker)) [
      | inl ends ↦
          let unfilled : taker.filled < taker.amount = ground arith in
          let head = outside_first side taker maker ends unfilled in
          rw ends (head, outside_after side taker.price maker rest head c.0)
      | inr goes ↦ elim (Bool-cases (add64 maker.filled n == maker.amount)) [
        | inl done ↦
            let unfilled : (match_orders side (add_fill n taker) rest).taker.filled
                < (match_orders side (add_fill n taker) rest).taker.amount =
              ground arith in
            rw (goes, done) (later unfilled)
        | inr open_still ↦
            let unfilled : (match_orders side (add_fill n taker) rest).taker.filled
                < (match_orders side (add_fill n taker) rest).taker.amount =
              ground arith in
            let less : min (left taker) (left maker) < left maker = ground (arith, exact) in
            let full : add64 taker.filled n ≡ taker.amount = omega (arith, exact, less) in
            ground (arith, total.0)
      ]
    ]
