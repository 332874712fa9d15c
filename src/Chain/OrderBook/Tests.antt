-- ===== src/Chain/OrderBook/Tests.antt =====
-- orderbook.go at concrete inputs.
use synthos_collective.Prelude.{ℕ, ◌+◌, ◌<◌, ◌≡◌, refl, List, [], ◌∷◌, arith, All, sum_by, String}
use synthos_collective.Words.{add64, sub64}
use synthos_collective.Chain.OrderBook.{Order, Side, buy, sell, match_orders, place_order}
use synthos_collective.Chain.OrderBook.Fills.{IsOpen, left, volume, match_orders-volume}
use synthos_collective.Chain.OrderBook.Crossing.{Beyond, match_orders-Beyond}

abbrev order : String → Side → ℕ → ℕ → Order
order id side price amount = record {
  id = id;
  owner = "o";
  asset_pair = "A/SYN";
  side = side;
  price = price;
  amount = amount;
  filled = 0;
  timestamp = 0;
}

abbrev asks : List Order
asks = order "a" sell 10 5 ∷ order "b" sell 12 5 ∷ order "c" sell 20 5 ∷ []

abbrev bid : Order
bid = order "t" buy 12 12

rests_test :
    (place_order bid 7 (record { asset_pair = "A/SYN"; bids = []; asks = asks })).1 ≡ record {
      asset_pair = "A/SYN";
      bids = record bid { filled = 10; timestamp = 7 } ∷ [];
      asks = order "c" sell 20 5 ∷ [];
    }
unfolding place_order add64 sub64
rests_test = refl

match_orders-volume_example :
    let m = match_orders buy bid asks in
    (m.taker.filled ≡ 0 + sum_by volume m.trades)
    × IsOpen m.taker
    × (sum_by left m.makers + sum_by volume m.trades ≡ sum_by left asks)
    × All IsOpen m.makers
match_orders-volume_example =
    match_orders-volume buy bid asks (omega arith, omega arith)
      ((omega arith, omega arith), ((omega arith, omega arith), ((omega arith, omega arith), tt)))

still_open : (match_orders buy bid asks).taker.filled < (match_orders buy bid asks).taker.amount
unfolding match_orders add64 sub64
still_open = omega arith

match_orders-Beyond_example : All (Beyond buy 12) (match_orders buy bid asks).makers
match_orders-Beyond_example =
    match_orders-Beyond buy bid asks (omega arith, omega arith)
      ((omega arith, omega arith), ((omega arith, omega arith), ((omega arith, omega arith), tt)))
      ((omega arith, (omega arith, tt)), ((omega arith, tt), (tt, tt))) still_open
