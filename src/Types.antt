-- ===== src/Types.antt =====
-- include/types.hpp and include/order.hpp: the scalar types and the order record.
use ultra_low_latency_orderb.Prelude.{ℕ, Option, none}
use ultra_low_latency_orderb.Prelude.Int.{ℤ, pos}

pub data Side : Type 0 where
  buy sell : Side

pub data OrderType : Type 0 where
  limit market : OrderType

-- `Price` is int64_t, and `Quantity`, `OrderId` and `Timestamp` are uint64_t. The order's address
-- is the number of its slot; `next` and `prev` are slots, or null.
pub record Order : Type 0 where
  pub id : ℕ
  pub price : ℤ
  pub quantity : ℕ
  pub next : Option ℕ
  pub prev : Option ℕ
  pub timestamp : ℕ
  pub side : Side
  pub order_type : OrderType

-- `Order(id, side, price, qty)`, its last two arguments at their defaults.
unfoldable pub new_order : ℕ → Side → ℤ → ℕ → Order
new_order id side price qty = record {
  id = id;
  price = price;
  quantity = qty;
  next = none;
  prev = none;
  timestamp = 0;
  side = side;
  order_type = OrderType.limit;
}

-- `Order()`.
unfoldable pub default_order : Order
default_order = record {
  id = 0;
  price = pos 0;
  quantity = 0;
  next = none;
  prev = none;
  timestamp = 0;
  side = Side.buy;
  order_type = OrderType.limit;
}

-- `Trade` of include/orderbook.hpp.
pub record Trade : Type 0 where
  pub price : ℤ
  pub quantity : ℕ
  pub maker_id : ℕ
  pub taker_id : ℕ
  pub taker_side : Side
