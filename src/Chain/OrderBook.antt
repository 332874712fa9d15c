-- ===== src/Chain/OrderBook.antt =====
-- orderbook.go: price-time matching. `now` is time.Now() in nanoseconds. The pointers to orders are
-- values: an order stands in one side of one book.
pub mod Fills
pub mod Crossing
mod Tests
use synthos_collective.Prelude.{
  ℕ, ◌+◌, ◌-◌, Bool, true, false, not, ◌&&◌, ◌||◌, List, [], ◌∷◌, ◌++◌, ltb, min, if◌then◌else◌,
  ◌==◌, nat_eq, String,
}
use synthos_collective.Words.{add64, sub64}
use synthos_collective.Chain.Types.{Address}

pub data Side : Type 0 where
  buy sell : Side

pub record Order : Type 0 where
  pub id : String
  pub owner : Address
  pub asset_pair : String
  pub side : Side
  pub price : ℕ
  pub amount : ℕ
  pub filled : ℕ
  pub timestamp : ℕ

pub record Trade : Type 0 where
  pub maker_id : String
  pub taker_id : String
  pub price : ℕ
  pub amount : ℕ

pub record OrderBook : Type 0 where
  pub asset_pair : String
  pub bids : List Order
  pub asks : List Order

unfoldable pub new_order_book : String → OrderBook
new_order_book pair = record { asset_pair = pair; bids = []; asks = [] }

-- `order.Price < ask.Price` and `order.Price > bid.Price`, which end the loops.
abbrev pub is_beyond : Side → Order → Order → Bool
is_beyond buy taker maker = ltb taker.price maker.price
is_beyond sell taker maker = ltb maker.price taker.price

-- The taker, the other side of the book and the trades.
pub record Matching : Type 0 where
  pub taker : Order
  pub makers : List Order
  pub trades : List Trade

abbrev pub fill_amount : Order → Order → ℕ
fill_amount taker maker = min (sub64 taker.amount taker.filled) (sub64 maker.amount maker.filled)

abbrev pub add_fill : ℕ → Order → Order
add_fill n order = record order { filled = add64 order.filled n }

abbrev pub trade_of : Order → Order → ℕ → Trade
trade_of taker maker n = record {
  maker_id = maker.id;
  taker_id = taker.id;
  price = maker.price;
  amount = n;
}

-- What one round adds to what the later rounds leave: a filled maker goes.
abbrev pub after_fill : Order → Trade → Matching → Matching
after_fill maker trade m = record m {
  makers = if maker.filled == maker.amount then m.makers else maker ∷ m.makers;
  trades = trade ∷ m.trades;
}

-- The loop of matchBuy and matchSell. A round takes the maker out or steps past it.
unfoldable pub match_orders : Side → Order → List Order → Matching
match_orders side taker [] = record { taker = taker; makers = []; trades = [] }
match_orders side taker (maker ∷ rest) =
    let n = fill_amount taker maker in
    let later = match_orders side (add_fill n taker) rest in
    if not (ltb taker.filled taker.amount) || is_beyond side taker maker
    then record { taker = taker; makers = maker ∷ rest; trades = [] }
    else after_fill (add_fill n maker) (trade_of taker maker n) later

-- The orders of sort.Slice: the best price first, and the earlier of two equal prices.
abbrev pub better : Side → Order → Order → Bool
better buy a b = if a.price == b.price then ltb a.timestamp b.timestamp else ltb b.price a.price
better sell a b = if a.price == b.price then ltb a.timestamp b.timestamp else ltb a.price b.price

unfoldable pub place_in : Side → Order → List Order → List Order
place_in side o [] = o ∷ []
place_in side o (p ∷ rest) =
    let below = place_in side o rest in if better side p o then p ∷ below else o ∷ p ∷ rest

unfoldable pub sort_side : Side → List Order → List Order
unfolding place_in
sort_side side [] = []
sort_side side (o ∷ rest) = place_in side o (sort_side side rest)

abbrev rest_on : Side → Order → List Order → List Order
rest_on side order own =
    if ltb order.filled order.amount then sort_side side (own ++ (order ∷ [])) else own

unfoldable pub place_order : Order → ℕ → OrderBook → List Trade × OrderBook
unfolding match_orders sort_side
place_order order now book =
    let stamped = record order { timestamp = now } in
    let m = match_orders order.side stamped (facing order.side book) in
    (
      m.trades,
      elim order.side [
        | buy ↦ record book { asks = m.makers; bids = rest_on buy m.taker book.bids }
        | sell ↦ record book { bids = m.makers; asks = rest_on sell m.taker book.asks }
      ],
    )
  where
    facing : Side → OrderBook → List Order
    facing buy book = book.asks
    facing sell book = book.bids
