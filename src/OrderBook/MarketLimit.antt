-- ===== src/OrderBook/MarketLimit.antt =====
-- The price that `submitMarket` of src/orderbook.cpp matches at, and the trades of one taker.
use ultra_low_latency_orderb.Prelude.{
  ℕ, ◌-◌, ◌^◌, ◌<◌, ◌≡◌, refl, ◌⊎◌, inl, inr, false, List, [], ◌∷◌, arith,
}
use ultra_low_latency_orderb.Prelude.Int.{
  ℤ, pos, negsuc, pos_part, neg_part, ◌+ℤ◌, ◌-ℤ◌, ◌≤ℤ◌, int_laws,
}
use ultra_low_latency_orderb.Types.{Side, buy, sell, Trade}
use ultra_low_latency_orderb.OrderBook.{OrderBook, index_to_price}
use ultra_low_latency_orderb.OrderBook.Matching.{beyond, market_limit}
use ultra_low_latency_orderb.OrderBook.MatchBook.{AreWithin}

-- Every trade is the taker's.
abbrev pub AreOf : Side → ℕ → List Trade → Type 0
AreOf side taker [] = Unit {0}
AreOf side taker (t ∷ ts) = ((t.taker_id ≡ taker) × (t.taker_side ≡ side)) × AreOf side taker ts

pub AreWithin-AreOf :
    (side : Side) (limit : ℤ) (taker : ℕ) (ts : List Trade)
    → AreWithin side limit taker ts
    → AreOf side taker ts
AreWithin-AreOf side limit taker [] w = tt
AreWithin-AreOf side limit taker (t ∷ ts) w =
    ((w.0.1, w.0.2), AreWithin-AreOf side limit taker ts w.1)

-- The limits of a book, as of every price that is an int64_t.
pub record HasWordPrices (b : OrderBook) : Type 0 where
  pub low : negsuc (2 ^ 63 - 1) ≤ℤ b.min_price
  pub high : b.max_price ≤ℤ pos (2 ^ 63 - 1)

-- No level of such a book is beyond the price that a market order is matched at.
pub market_limit_reaches :
    (side : Side) (b : OrderBook) (i : ℕ)
    → HasWordPrices b
    → b.num_levels ≡ pos_part (b.max_price -ℤ b.min_price +ℤ pos 1)
    → i < b.num_levels
    → beyond side (market_limit side) (index_to_price b i) ≡ false
unfolding index_to_price
market_limit_reaches side b i w spans lt =
    reaches side (b.min_price +ℤ pos i) (omega (int_laws, w.low))
      (omega (int_laws, w.high, spans, lt, one_part (b.max_price -ℤ b.min_price +ℤ pos 1)))
  where
    one_part : (x : ℤ) → (pos_part x ≡ 0) ⊎ (neg_part x ≡ 0)
    one_part (pos n) = inr refl
    one_part (negsuc n) = inl refl

    reaches :
        (side : Side) (price : ℤ)
        → negsuc (2 ^ 63 - 1) ≤ℤ price
        → price ≤ℤ pos (2 ^ 63 - 1)
        → beyond side (market_limit side) price ≡ false
    reaches buy price low high = ground arith
    reaches sell price low high = ground arith
