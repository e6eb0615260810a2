-- ===== src/OrderBook.antt =====
-- include/orderbook.hpp and src/orderbook.cpp: the book's state and the operations that rest,
-- cancel and modify orders. Where the source repeats a branch for each side, one function takes
-- the side. An index of -1 is `none`. The recorder that METRICS_SCOPE times for is not attached.
pub mod Matching
pub mod Shape
pub mod LadderBest
pub mod LadderSteps
pub mod Assemble
pub mod Registered
pub mod Add
pub mod Cancel
pub mod Modify
pub mod Fills
pub mod HeadMaker
pub mod MarketLevel
pub mod SweepFacts
pub mod MarketSweep
pub mod Resting
pub mod MatchLevel
pub mod MatchBook
pub mod MatchTotal
pub mod Uncrossed
pub mod MarketLimit
pub mod Submit
pub mod Create
pub mod Depth
pub mod Examples
mod Tests
use ultra_low_latency_orderb.Prelude.{
  ℕ, suc, ◌+◌, ◌/◌, ◌≡◌, Bool, true, false, not, ◌&&◌, ◌||◌, Option, none, some, List, [], ◌∷◌, ltb,
  ◌==◌, if◌then◌else◌, write, is_none, points_at, add64, sub64,
}
use ultra_low_latency_orderb.Prelude.Int.{
  bits64, ℤ, pos, pos_part, ◌+ℤ◌, ◌-ℤ◌, leb_ℤ, ltb_ℤ, signed64,
}
use ultra_low_latency_orderb.Types.{Side, buy, sell, Order, new_order, default_order}
use ultra_low_latency_orderb.PriceLevel.{
  Heap, PriceLevel, new_level, set_price, is_empty, adjust_total_quantity,
}
use ultra_low_latency_orderb.PriceLevel
use ultra_low_latency_orderb.ObjectPool.{ObjectPool, new_pool, allocate, deallocate}
use ultra_low_latency_orderb.Bitmap.{Words, set_bit, clear_bit, highest_set_bit, lowest_set_bit}

-- What the book keeps for one side: the levels, their bitmap, the best index and the count of
-- occupied levels.
pub record Ladder : Type 0 where
  pub levels : ℕ → PriceLevel
  pub words : Words
  pub best_idx : Option ℕ
  pub count : ℕ

pub record OrderBook : Type 0 where
  pub min_price : ℤ
  pub max_price : ℤ
  pub num_levels : ℕ
  pub bids : Ladder
  pub asks : Ladder
  pub orders : ℕ → Option ℕ
  pub next_order_id : ℕ
  pub total_orders : ℕ
  pub pool : ObjectPool
  pub heap : Heap

abbrev pub opposite : Side → Side
opposite buy = sell
opposite sell = buy

abbrev pub ladder : Side → OrderBook → Ladder
ladder buy b = b.bids
ladder sell b = b.asks

abbrev pub with_ladder : Side → OrderBook → Ladder → OrderBook
with_ladder buy b l = record b { bids = l }
with_ladder sell b l = record b { asks = l }

-- An empty ladder, each level with its price set.
unfoldable pub new_ladder : ℤ → Ladder
unfolding new_level set_price
new_ladder min_price = record {
  levels = λ i. set_price (new_level (pos 0)) (min_price +ℤ pos i);
  words = λ k. 0;
  best_idx = none;
  count = 0;
}

-- The constructor, where the vectors of levels can be made: a count that is negative before the cast
-- to size_t is nearly 2 ^ 64 after it, and the constructor of a vector of that size throws.
unfoldable pub new_book : ℤ → ℤ → ℕ → OrderBook
unfolding new_ladder new_pool
new_book min_price max_price pool_cap = record {
  min_price = min_price;
  max_price = max_price;
  num_levels = bits64 (max_price -ℤ min_price +ℤ pos 1);
  bids = new_ladder min_price;
  asks = new_ladder min_price;
  orders = λ id. none;
  next_order_id = 1;
  total_orders = 0;
  pool = new_pool pool_cap 4096;
  heap = λ slot. default_order;
}

abbrev pub num_words : OrderBook → ℕ
num_words b = (b.num_levels + 63) / 64

-- Applied to prices in range only.
unfoldable pub price_to_index : OrderBook → ℤ → ℕ
price_to_index b p = pos_part (p -ℤ b.min_price)

unfoldable pub index_to_price : OrderBook → ℕ → ℤ
index_to_price b i = b.min_price +ℤ pos i

unfoldable pub in_range : OrderBook → ℤ → Bool
in_range b p = leb_ℤ b.min_price p && leb_ℤ p b.max_price

-- `best < 0 || idx > best` for bids, `best < 0 || idx < best` for asks.
abbrev pub improves : Side → ℕ → Option ℕ → Bool
improves s idx none = true
improves buy idx (some best) = ltb best idx
improves sell idx (some best) = ltb idx best

-- The scan for the next best level of a side.
unfoldable pub best_of : Side → Words → ℕ → Option ℕ
best_of buy w n = highest_set_bit w n
best_of sell w n = lowest_set_bit w n

-- What `addOrder` does to the ladder after it has linked the order into level `idx`.
unfoldable pub ladder_after_add : Side → Ladder → ℕ → PriceLevel → Ladder
ladder_after_add s l idx lvl =
    let l1 : Ladder = record l { levels = write l.levels idx lvl } in
    if is_empty (l.levels idx)
    then record l1 {
      words = set_bit l.words idx;
      count = add64 l.count 1;
      best_idx = if improves s idx l.best_idx then some idx else l.best_idx;
    }
    else l1

-- What `cancelOrder` does to the ladder after it has unlinked the order from level `idx`.
unfoldable pub ladder_after_remove : Side → ℕ → Ladder → ℕ → PriceLevel → Ladder
ladder_after_remove s n l idx lvl =
    let l1 : Ladder = record l { levels = write l.levels idx lvl } in
    if is_empty lvl
    then record l1 {
      words = clear_bit l.words idx;
      count = sub64 l.count 1;
      best_idx =
          if points_at l.best_idx idx then best_of s (clear_bit l.words idx) n else l.best_idx;
    }
    else l1

-- Steps 1 and 2 of `addOrder`: the order is built in its slot and entered in the map.
unfoldable pub register : OrderBook → ℕ → ObjectPool → Order → OrderBook
register b slot pool o = record b {
  pool = pool;
  heap = write b.heap slot o;
  orders = write b.orders o.id (some slot);
}

-- Step 3: the order is linked into the level of its price.
unfoldable pub link_order : OrderBook → Side → ℕ → ℕ → OrderBook
link_order b s idx slot =
    let (h, lvl) = PriceLevel.add_order b.heap ((ladder s b).levels idx) (some slot) in
    with_ladder s (record b { heap = h; total_orders = add64 b.total_orders 1 })
      (ladder_after_add s (ladder s b) idx lvl)

-- `addOrder` with the caller's id. `none` is a null dereference in the pool.
unfoldable pub add_order_with_id : OrderBook → Side → ℤ → ℕ → ℕ → Option (ℕ × OrderBook)
add_order_with_id b s price quantity id =
    if not (in_range b price) then some (0, b) else elim (allocate b.pool) [
      | none ↦ none
      | some (slot, pool) ↦
          let b1 : OrderBook = register b slot pool (new_order id s price quantity) in
          let b2 : OrderBook = link_order b1 s (price_to_index b price) slot in
          some ((b2.heap slot).id, b2)
    ]

-- `addOrder` with the book's own next id.
unfoldable pub add_order : OrderBook → Side → ℤ → ℕ → Option (ℕ × OrderBook)
add_order b s price quantity =
    add_order_with_id (record b { next_order_id = add64 b.next_order_id 1 }) s price quantity
      b.next_order_id

-- `cancelOrder` from the iterator on: the order in `slot`, found under `id`.
unfoldable pub drop_order : OrderBook → ℕ → ℕ → OrderBook
drop_order b id slot =
    let s = (b.heap slot).side in
    let idx = price_to_index b (b.heap slot).price in
    let (h, lvl) = PriceLevel.remove_order b.heap ((ladder s b).levels idx) (some slot) in
    with_ladder s
      (record b {
        heap = h;
        orders = write b.orders id none;
        pool = deallocate b.pool (some slot);
        total_orders = sub64 b.total_orders 1;
      })
      (ladder_after_remove s (num_words b) (ladder s b) idx lvl)

unfoldable pub cancel_order : OrderBook → ℕ → Bool × OrderBook
cancel_order b id = elim (b.orders id) [
  | none ↦ (false, b)
  | some slot ↦ (true, drop_order b id slot)
]

-- Another level in place of level `idx`, the rest of the ladder as it is.
abbrev pub with_level : Ladder → ℕ → PriceLevel → Ladder
with_level l idx lvl = record l { levels = write l.levels idx lvl }

-- `modifyOrder` from the iterator on.
unfoldable pub requantify : OrderBook → ℕ → ℕ → OrderBook
requantify b slot new_quantity =
    let o = b.heap slot in
    let idx = price_to_index b o.price in
    let delta = signed64 new_quantity -ℤ signed64 o.quantity in
    with_ladder o.side
      (record b { heap = write b.heap slot (record o { quantity = new_quantity }) })
      (with_level (ladder o.side b) idx
        (adjust_total_quantity ((ladder o.side b).levels idx) delta))

unfoldable pub modify_order : OrderBook → ℕ → ℕ → Bool × OrderBook
modify_order b id new_quantity = elim (b.orders id) [
  | none ↦ (false, b)
  | some slot ↦ (true, requantify b slot new_quantity)
]

-- The getters.
unfoldable pub best_price : Side → OrderBook → ℤ
best_price s b = elim (ladder s b).best_idx [ none ↦ pos 0 | some i ↦ index_to_price b i ]

unfoldable pub get_spread : OrderBook → ℤ
get_spread b =
    if is_none b.bids.best_idx || is_none b.asks.best_idx
    then pos 0
    else best_price sell b -ℤ best_price buy b

abbrev pub get_order : OrderBook → ℕ → Option Order
get_order b id = elim (b.orders id) [ none ↦ none | some slot ↦ some (b.heap slot) ]
