-- ===== src/Chain/OrderBook/Fills.antt =====
-- orderbook.go: what matching fills.
use synthos_collective.Prelude.{
  ℕ, ◌+◌, ◌-◌, ◌≤◌, ◌<◌, ◌≡◌, false, List, [], ◌∷◌, arith, All, sum_by, nat_eq, min, ltb, not, ◌||◌,
  inl, inr, Bool-cases, ◌==◌,
}
use synthos_collective.Words.{u64_mod, add64, sub64}
use synthos_collective.Chain.OrderBook.{
  Order, Trade, Side, buy, sell, is_beyond, match_orders, fill_amount, add_fill, trade_of,
}

-- No order is filled beyond its amount.
abbrev pub IsOpen : Order → Type 0
IsOpen o = (o.filled ≤ o.amount) × (o.amount < u64_mod)

abbrev pub left : Order → ℕ
left o = o.amount - o.filled

abbrev pub volume : Trade → ℕ
volume t = t.amount

-- The limit of the taker.
abbrev pub Within : Side → ℕ → Trade → Type 0
Within buy limit t = t.price ≤ limit
Within sell limit t = limit ≤ t.price

pub fill_exact :
    (taker maker : Order)
    → IsOpen taker
    → IsOpen maker
    → (fill_amount taker maker ≡ min (left taker) (left maker))
      × (add64 taker.filled (fill_amount taker maker)
          ≡ taker.filled + min (left taker) (left maker))
      × (add64 maker.filled (fill_amount taker maker)
          ≡ maker.filled + min (left taker) (left maker))
unfolding add64 sub64
fill_exact taker maker a b = (omega arith, omega arith, omega arith)

-- For a taker and makers that are not filled beyond their amounts, matching adds the volume of its
-- trades to the taker and takes the same volume out of what the makers had left, and no order ends
-- up filled beyond its amount.
pub match_orders-volume :
    (side : Side) (taker : Order) (makers : List Order)
    → IsOpen taker
    → All IsOpen makers
    → let m = match_orders side taker makers in
      (m.taker.filled ≡ taker.filled + sum_by volume m.trades)
      × IsOpen m.taker
      × (sum_by left m.makers + sum_by volume m.trades ≡ sum_by left makers)
      × All IsOpen m.makers
unfolding match_orders
match_orders-volume side taker [] a b = (omega arith, a, omega arith, tt)
match_orders-volume side taker (maker ∷ rest) a b =
    let n = fill_amount taker maker in
    let exact = fill_exact taker maker a b.0 in
    let next : IsOpen (add_fill n taker) = (omega arith, a.1) in
    let kept : IsOpen (add_fill n maker) = (omega arith, b.0.1) in
    let later = match_orders-volume side (add_fill n taker) rest next b.1 in
    elim (Bool-cases (not (ltb taker.filled taker.amount) || is_beyond side taker maker)) [
      | inl ends ↦ rw ends (omega arith, a, omega arith, b)
      | inr goes ↦ elim (Bool-cases (add64 maker.filled n == maker.amount)) [
        | inl done ↦
            let whole : add64 maker.filled n ≡ maker.amount = ground arith in
            rw (goes, done) (omega (arith, later), later.1, omega (arith, later), later.3)
        | inr open_still ↦
            rw (goes, open_still)
              (omega (arith, later), later.1, omega (arith, later), (kept, later.3))
      ]
    ]

-- Every trade of a matching is at the taker's limit price or better.
match_orders-Within :
    (side : Side) (taker : Order) (makers : List Order)
    → All (Within side taker.price) (match_orders side taker makers).trades
unfolding match_orders
match_orders-Within side taker [] = tt
match_orders-Within side taker (maker ∷ rest) =
    let n = fill_amount taker maker in
    let later = match_orders-Within side (add_fill n taker) rest in
    elim (Bool-cases (not (ltb taker.filled taker.amount) || is_beyond side taker maker)) [
      | inl ends ↦ rw ends tt
      | inr goes ↦ rw goes (in_limit side taker maker goes, later)
    ]
  where
    in_limit :
        (side : Side) (taker maker : Order)
        → (not (ltb taker.filled taker.amount) || is_beyond side taker maker) ≡ false
        → Within side taker.price (trade_of taker maker (fill_amount taker maker))
    in_limit buy taker maker h = ground arith
    in_limit sell taker maker h = ground arith
