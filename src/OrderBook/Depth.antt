-- ===== src/OrderBook/Depth.antt =====
-- `getDepth` of include/orderbook.hpp: the levels from the best one inward.
pub mod Rungs
use ultra_low_latency_orderb.Prelude.{
  ℕ, zero, suc, ◌+◌, ◌-◌, Bool, Option, none, some, List, [], ◌∷◌, ◌==◌, if◌then◌else◌,
}
use ultra_low_latency_orderb.Prelude.Int.{ℤ}
use ultra_low_latency_orderb.PriceLevel.{is_empty}
use ultra_low_latency_orderb.OrderBook.{OrderBook, Ladder, index_to_price}

pub record DepthLevel : Type 0 where
  pub price : ℤ
  pub qty : ℕ

abbrev pub depth_level : OrderBook → Ladder → ℕ → DepthLevel
depth_level b l i = record { price = index_to_price b i; qty = (l.levels i).total_quantity }

-- The entries that are still wanted after level `i` was looked at.
abbrev pub wanted_after : Ladder → ℕ → ℕ → ℕ
wanted_after l i n = if is_empty (l.levels i) then n else n - 1

-- The loop over the bids, with `suc i` levels left and `n` entries wanted.
unfoldable pub depth_down : OrderBook → Ladder → ℕ → ℕ → List DepthLevel
depth_down b l zero n = []
depth_down b l (suc i) n =
    let rest = depth_down b l i (wanted_after l i n) in
    if n == 0 then [] else if is_empty (l.levels i) then rest else depth_level b l i ∷ rest

-- The loop over the asks from level `i` on, with `left` levels left.
unfoldable pub depth_up : OrderBook → Ladder → ℕ → ℕ → ℕ → List DepthLevel
depth_up b l zero i n = []
depth_up b l (suc left) i n =
    let rest = depth_up b l left (i + 1) (wanted_after l i n) in
    if n == 0 then [] else if is_empty (l.levels i) then rest else depth_level b l i ∷ rest

-- What is written to `bids` and `asks`.
unfoldable pub get_depth : OrderBook → ℕ → List DepthLevel × List DepthLevel
get_depth b max_levels = (
  elim b.bids.best_idx [ none ↦ [] | some i ↦ depth_down b b.bids (suc i) max_levels ],
  elim b.asks.best_idx [ none ↦ [] | some i ↦ depth_up b b.asks (b.num_levels - i) i max_levels ],
)
