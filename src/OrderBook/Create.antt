-- ===== src/OrderBook/Create.antt =====
-- The constructor of src/orderbook.cpp: an empty book.
use ultra_low_latency_orderb.Prelude.{
  ℕ, zero, suc, ◌%◌, ◌^◌, ◌<◌, ◌≡◌, refl, List, [], arith, length,
}
use ultra_low_latency_orderb.Prelude.Bits.{digit}
use ultra_low_latency_orderb.Prelude.Int.{ℤ, pos, pos_part, bits64, ◌+ℤ◌, ◌-ℤ◌, ◌≤ℤ◌}
use ultra_low_latency_orderb.Types.{Side, buy, sell}
use ultra_low_latency_orderb.PriceLevel.{Heap, new_level, set_price}
use ultra_low_latency_orderb.PriceLevel.Queue.{IsQueue}
use ultra_low_latency_orderb.ObjectPool.FreeList.{new_pool-IsPool}
use ultra_low_latency_orderb.OrderBook.{ladder, new_ladder, new_book}
use ultra_low_latency_orderb.OrderBook.Shape.{occupied_below, Queues, IsLadder, IsBook}

-- No orders at all.
abbrev pub no_orders : Queues
no_orders s i = []

occupied_below_none : (n : ℕ) → occupied_below n (λ i. []) ≡ 0
occupied_below_none zero = refl
occupied_below_none (suc n) = omega (arith, occupied_below_none n)

new_level-IsQueue : (h : Heap) (p q : ℤ) → IsQueue h (set_price (new_level p) q) []
unfolding new_level set_price
new_level-IsQueue h p q = record {
  links = tt;
  distinct = tt;
  head = refl;
  tail = refl;
  total = refl;
  count = refl;
}

digit-zero : (j : ℕ) → digit 0 j ≡ 0
digit-zero zero = refl
digit-zero (suc j) = digit-zero j

new_ladder-IsLadder :
    (s : Side) (h : Heap) (n : ℕ) (lo : ℤ) → IsLadder s h n (new_ladder lo) (λ i. [])
unfolding new_ladder
new_ladder-IsLadder s h n lo = record {
  queues = λ i. new_level-IsQueue h (pos 0) (lo +ℤ pos i);
  within = λ i le. refl;
  words = λ k. omega arith;
  bits = λ i. digit-zero (i % 64);
  best = λ j. refl;
  count = omega (arith, occupied_below_none n);
}

-- The cast of a count of levels to size_t keeps it.
levels_cast :
    (lo hi : ℤ)
    → lo ≤ℤ hi
    → pos_part (hi -ℤ lo +ℤ pos 1) < 2 ^ 63
    → bits64 (hi -ℤ lo +ℤ pos 1) ≡ pos_part (hi -ℤ lo +ℤ pos 1)
unfolding ◌+ℤ◌ ◌-ℤ◌
levels_cast lo hi le few = ground arith

-- For a lowest price at most the highest, and fewer than 2 ^ 63 levels, a new book is well formed
-- and holds no order; its pool has at least one free slot.
pub new_book-IsBook :
    (lo hi : ℤ) (cap : ℕ)
    → lo ≤ℤ hi
    → pos_part (hi -ℤ lo +ℤ pos 1) < 2 ^ 63
    → (fs : List ℕ) × IsBook (new_book lo hi cap) no_orders fs [] × (0 < length fs)
unfolding new_book
new_book-IsBook lo hi cap le few =
    let (fs, p, some_free) = new_pool-IsPool cap 4096 in
    (
      fs,
      record {
        ladders = λ s. sides s lo hi;
        pool = p;
        placed = λ s i a mem. ground arith;
        found = λ id a e. ground arith;
        spans = levels_cast lo hi le few;
        total = refl;
      },
      some_free,
    )
  where
    sides :
        (s : Side) (lo hi : ℤ)
        → IsLadder s
            (new_book lo hi cap).heap
            (new_book lo hi cap).num_levels
            (ladder s (new_book lo hi cap))
            (λ i. [])
    sides buy lo hi = new_ladder-IsLadder buy _ _ lo
    sides sell lo hi = new_ladder-IsLadder sell _ _ lo
