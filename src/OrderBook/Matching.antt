-- ===== src/OrderBook/Matching.antt =====
-- The matching loops of src/orderbook.cpp: `executeMarketOrder`, `match`, `submitLimit` and
-- `submitMarket`. Each loop takes fuel, and `none` is a loop that runs out of it or a null
-- dereference.
use ultra_low_latency_orderb.Prelude.{
  ℕ, zero, suc, ◌+◌, ◌-◌, ◌^◌, min, Bool, Option, none, some, List, [], ◌∷◌, ◌++◌, ltb, ◌==◌,
  if◌then◌else◌, write,
}
use ultra_low_latency_orderb.Prelude.Int.{ℤ, pos, negsuc, ◌-ℤ◌, ltb_ℤ, signed64}
use ultra_low_latency_orderb.Types.{Side, buy, sell, Trade}
use ultra_low_latency_orderb.PriceLevel.{adjust_total_quantity, reduce_head_quantity}
use ultra_low_latency_orderb.OrderBook.{
  OrderBook, ladder, with_ladder, with_level, opposite, index_to_price, cancel_order,
  add_order_with_id,
}

infixl 5 ◌>>=◌
abbrev pub ◌>>=◌ {ℓ κ} : {A : Type ℓ} {B : Type κ} → Option A → (A → Option B) → Option B
none >>= f = none
some a >>= f = f a

-- `lvl.reduceHeadQuantity(tf)` on level `idx` of the side `s`.
unfoldable pub reduce_head : OrderBook → Side → ℕ → ℕ → OrderBook
reduce_head b s idx tf =
    let (h, lvl) = reduce_head_quantity b.heap ((ladder s b).levels idx) tf in
    with_ladder s (record b { heap = h }) (with_level (ladder s b) idx lvl)

-- One round of the inner loop of `executeMarketOrder` takes `tf` shares from the head order.
unfoldable pub take_from_head : OrderBook → Side → ℕ → ℕ → ℕ → OrderBook
take_from_head b s idx head tf =
    if tf == (b.heap head).quantity
    then (cancel_order b (b.heap head).id).1
    else reduce_head b s idx tf

-- `while (filled < fill)`, on level `idx` of the resting side `s`.
unfoldable pub fill_level : ℕ → OrderBook → Side → ℕ → ℕ → ℕ → Option (ℕ × OrderBook)
fill_level zero b s idx fill filled = none
fill_level (suc fuel) b s idx fill filled =
    if ltb filled fill
    then (elim ((ladder s b).levels idx).head [
      | none ↦ some (filled, b)
      | some head ↦
          let tf = min (b.heap head).quantity (fill - filled) in
          fill_level fuel (take_from_head b s idx head tf) s idx fill (filled + tf)
    ])
    else some (filled, b)

-- `while (remaining > 0 && best >= 0)`, with `inner` rounds for each level.
unfoldable pub sweep : ℕ → ℕ → OrderBook → Side → ℕ → Option (ℕ × OrderBook)
sweep zero inner b s remaining = none
sweep (suc fuel) inner b s remaining =
    if ltb 0 remaining
    then (elim (ladder s b).best_idx [
      | none ↦ some (remaining, b)
      | some best ↦ do
        let fill = min remaining ((ladder s b).levels best).total_quantity
        (filled, b') ← fill_level inner b s best fill 0
        if filled == 0 then some (remaining, b') else sweep fuel inner b' s (remaining - filled)
    ])
    else some (remaining, b)

-- Rounds enough for every loop: each one that does not end its loop takes an order out of its slot.
abbrev pub rounds : OrderBook → ℕ
rounds b = b.pool.capacity + 2

unfoldable pub execute_market_order : OrderBook → Side → ℕ → Option (ℕ × OrderBook)
execute_market_order b side quantity = do
  (remaining, b') ← sweep (rounds b) (rounds b) b (opposite side) quantity
  some (quantity - remaining, b')

-- The branch of `match` that leaves the maker in the book.
unfoldable pub reduce_maker : OrderBook → Side → ℕ → ℕ → ℕ → OrderBook
reduce_maker b s idx maker fill =
    let o = b.heap maker in
    with_ladder s
      (record b { heap = write b.heap maker (record o { quantity = o.quantity - fill }) })
      (with_level (ladder s b) idx
        (adjust_total_quantity ((ladder s b).levels idx) (pos 0 -ℤ signed64 fill)))

unfoldable pub fill_maker : OrderBook → Side → ℕ → ℕ → ℕ → OrderBook
fill_maker b s idx maker fill =
    if fill == (b.heap maker).quantity
    then (cancel_order b (b.heap maker).id).1
    else reduce_maker b s idx maker fill

-- What a loop of `match` hands on: the unfilled quantity, the trades so far and the book.
abbrev pub Matched : Type 0
Matched = ℕ × List Trade × OrderBook

-- `while (rem > 0)` inside one level; `side` and `taker` are the aggressor's, `s` rests.
unfoldable pub match_level :
    ℕ → Side → ℕ → Side → ℕ → ℤ → ℕ → List Trade → OrderBook → Option Matched
match_level zero side taker s idx price rem trades b = none
match_level (suc fuel) side taker s idx price rem trades b =
    if ltb 0 rem
    then (elim ((ladder s b).levels idx).head [
      | none ↦ some (rem, trades, b)
      | some maker ↦
          let fill = min rem (b.heap maker).quantity in
          let trade : Trade = record {
            price = price;
            quantity = fill;
            maker_id = (b.heap maker).id;
            taker_id = taker;
            taker_side = side;
          } in
          match_level fuel side taker s idx price (rem - fill) (trades ++ (trade ∷ []))
            (fill_maker b s idx maker fill)
    ])
    else some (rem, trades, b)

-- The best resting price is beyond the aggressor's limit.
abbrev pub beyond : Side → ℤ → ℤ → Bool
beyond buy limit price = ltb_ℤ limit price
beyond sell limit price = ltb_ℤ price limit

-- `while (rem > 0 && best >= 0)`.
unfoldable pub match_levels : ℕ → ℕ → Side → ℤ → ℕ → ℕ → List Trade → OrderBook → Option Matched
match_levels zero inner side limit taker rem trades b = none
match_levels (suc fuel) inner side limit taker rem trades b =
    if ltb 0 rem
    then (elim (ladder (opposite side) b).best_idx [
      | none ↦ some (rem, trades, b)
      | some best ↦
          let level =
            match_level inner side taker (opposite side) best (index_to_price b best) rem trades
              b in
          let next = level >>= λ (rem', trades', b').
          match_levels fuel inner side limit taker rem' trades' b' in
          if beyond side limit (index_to_price b best) then some (rem, trades, b) else next
    ])
    else some (rem, trades, b)

-- `match`, onto the trades that `trades` holds.
unfoldable pub match_order : OrderBook → Side → ℤ → ℕ → ℕ → List Trade → Option Matched
match_order b side limit quantity taker trades =
    match_levels (rounds b) (rounds b) side limit taker quantity trades b

-- `if (rem > 0) addOrder(side, price, rem, takerId)`.
unfoldable pub rest_remainder : OrderBook → Side → ℤ → ℕ → ℕ → Option OrderBook
rest_remainder b side price rem taker =
    if ltb 0 rem then (do (id, b') ← add_order_with_id b side price rem taker; some b') else some b

unfoldable pub submit_limit : OrderBook → Side → ℤ → ℕ → ℕ → Option (List Trade × OrderBook)
submit_limit b side price quantity taker = do
  (rem, trades, b') ← match_order b side price quantity taker []
  b'' ← rest_remainder b' side price rem taker
  some (trades, b'')

-- The limits of int64_t.
abbrev pub market_limit : Side → ℤ
market_limit buy = pos (2 ^ 63 - 1)
market_limit sell = negsuc (2 ^ 63 - 1)

unfoldable pub submit_market : OrderBook → Side → ℕ → ℕ → Option (List Trade × OrderBook)
submit_market b side quantity taker = do
  (rem, trades, b') ← match_order b side (market_limit side) quantity taker []
  some (trades, b')
