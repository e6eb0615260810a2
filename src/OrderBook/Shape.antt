-- ===== src/OrderBook/Shape.antt =====
-- The representation invariant of include/orderbook.hpp: the lists of orders that a side's levels
-- hold, and how the level array, the bitmap, the best index and the counters follow them.
use ultra_low_latency_orderb.Prelude.{
  ℕ, zero, suc, ◌+◌, ◌%◌, ◌^◌, ◌<◌, ◌≤◌, ◌≡◌, Bool, true, Option, none, some, List, [], ◌∷◌, ltb,
  length, ◌∈◌, write, erase, ◌++◌,
}
use ultra_low_latency_orderb.Prelude.Int.{pos, pos_part, ◌+ℤ◌, ◌-ℤ◌}
use ultra_low_latency_orderb.Types.{Side, buy, sell}
use ultra_low_latency_orderb.PriceLevel.{Heap}
use ultra_low_latency_orderb.PriceLevel.Queue.{IsQueue}
use ultra_low_latency_orderb.ObjectPool.FreeList.{IsPool}
use ultra_low_latency_orderb.Bitmap.Scan.{bit, AreWords}
use ultra_low_latency_orderb.OrderBook.{OrderBook, Ladder, ladder, price_to_index}

-- 1 for a level that holds an order, 0 for an empty one.
abbrev pub occupied : List ℕ → ℕ
occupied [] = 0
occupied (x ∷ xs) = 1

-- How many of the levels below `n` hold an order.
abbrev pub occupied_below : ℕ → (ℕ → List ℕ) → ℕ
occupied_below zero q = 0
occupied_below (suc n) q = occupied (q n) + occupied_below n q

-- Level `j` is better than level `i`: higher for bids, lower for asks.
abbrev pub beats : Side → ℕ → ℕ → Bool
beats buy j i = ltb i j
beats sell j i = ltb j i

-- No level better than the best index holds an order, and the best one does.
abbrev pub IsBest : Side → Option ℕ → (ℕ → List ℕ) → Type 0
IsBest s none q = (j : ℕ) → q j ≡ []
IsBest s (some i) q = (occupied (q i) ≡ 1) × ((j : ℕ) → beats s j i ≡ true → q j ≡ [])

-- The levels of a side hold the orders `q`, and everything that is kept about them is right.
pub record IsLadder (s : Side) (h : Heap) (n : ℕ) (l : Ladder) (q : ℕ → List ℕ) : Type 0 where
  pub queues : (i : ℕ) → IsQueue h (l.levels i) (q i)
  pub within : (i : ℕ) → n ≤ i → q i ≡ []
  pub words : AreWords l.words
  pub bits : (i : ℕ) → bit l.words i ≡ occupied (q i)
  pub best : IsBest s l.best_idx q
  pub count : l.count ≡ occupied_below n q % 2 ^ 64

-- The queues of both sides.
abbrev pub Queues : Type 0
Queues = Side → ℕ → List ℕ

-- The queues of the side `s` replaced.
abbrev pub with_side : Side → (ℕ → List ℕ) → Queues → Queues
with_side buy f q buy = f
with_side buy f q sell = q sell
with_side sell f q buy = q buy
with_side sell f q sell = f

-- An order in a queue is live, is in the map under its id, and says where it stands.
pub record IsPlaced (b : OrderBook) (live : List ℕ) (s : Side) (i a : ℕ) : Type 0 where
  pub is_live : a ∈ live
  pub mapped : b.orders (b.heap a).id ≡ some a
  pub side : (b.heap a).side ≡ s
  pub index : price_to_index b (b.heap a).price ≡ i
  pub word : (b.heap a).quantity < 2 ^ 64

-- An entry of the map leads to an order with that id, which stands in its queue.
pub record IsFound (b : OrderBook) (q : Queues) (id a : ℕ) : Type 0 where
  pub same_id : (b.heap a).id ≡ id
  pub queued : a ∈ q (b.heap a).side (price_to_index b (b.heap a).price)

-- The book holds the orders `q`, level by level; `fs` and `live` are the free and the live slots.
pub record IsBook (b : OrderBook) (q : Queues) (fs live : List ℕ) : Type 0 where
  pub ladders : (s : Side) → IsLadder s b.heap b.num_levels (ladder s b) (q s)
  pub pool : IsPool b.pool fs live
  pub placed : (s : Side) (i a : ℕ) → a ∈ q s i → IsPlaced b live s i a
  pub found : (id a : ℕ) → b.orders id ≡ some a → IsFound b q id a
  pub spans : b.num_levels ≡ pos_part (b.max_price -ℤ b.min_price +ℤ pos 1)
  pub total : b.total_orders ≡ length live % 2 ^ 64

-- The queues with the order `a` behind those of level `i`, and without the order `a` of level `i`.
abbrev pub put : Side → ℕ → ℕ → Queues → Queues
put s i a q = with_side s (write (q s) i (q s i ++ (a ∷ []))) q

abbrev pub cut : Side → ℕ → ℕ → Queues → Queues
cut s i a q = with_side s (write (q s) i (erase a (q s i))) q
