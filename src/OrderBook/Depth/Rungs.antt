-- ===== src/OrderBook/Depth/Rungs.antt =====
-- The depth of a book against all of its occupied levels, best first.
use ultra_low_latency_orderb.Prelude.{
  ℕ, zero, suc, ◌+◌, ◌-◌, ◌%◌, ◌^◌, ◌<◌, ◌≤◌, ◌≡◌, ◌∙◌, refl, sym, ap, ap₂, subst, arith,
  Option-cases, inl, inr, List, [], ◌∷◌, ◌==◌, if◌then◌else◌, take, lt→ltb, ==_false,
}
use native.Mathlib.Decide.{dec_lt}
use ultra_low_latency_orderb.Types.{buy, sell}
use ultra_low_latency_orderb.PriceLevel.{is_empty}
use ultra_low_latency_orderb.PriceLevel.Queue.{IsQueue, quantity_sum}
use ultra_low_latency_orderb.OrderBook.{OrderBook, Ladder, index_to_price}
use ultra_low_latency_orderb.OrderBook.Shape.{Queues, IsLadder, IsBook, IsBest, occupied}
use ultra_low_latency_orderb.OrderBook.Depth.{
  DepthLevel, depth_level, wanted_after, depth_down, depth_up, get_depth,
}

-- The entry of a level that holds the orders `xs`, if it holds any, before `rest`.
abbrev pub rung : OrderBook → ℕ → List ℕ → List DepthLevel → List DepthLevel
rung b i [] rest = rest
rung b i (x ∷ xs) rest =
    record { price = index_to_price b i; qty = quantity_sum b.heap (x ∷ xs) % 2 ^ 64 } ∷ rest

-- The occupied levels below `n`, highest first, and the `n` levels from `i` on, lowest first.
abbrev pub rungs_down : OrderBook → (ℕ → List ℕ) → ℕ → List DepthLevel
rungs_down b q zero = []
rungs_down b q (suc i) = rung b i (q i) (rungs_down b q i)

abbrev pub rungs_up : OrderBook → (ℕ → List ℕ) → ℕ → ℕ → List DepthLevel
rungs_up b q zero i = []
rungs_up b q (suc n) i = rung b i (q i) (rungs_up b q n (i + 1))

-- One level of either loop.
level_rung :
    (b : OrderBook) (l : Ladder) (i n : ℕ) (xs : List ℕ) (rest : ℕ → List DepthLevel)
    (all : List DepthLevel)
    → IsQueue b.heap (l.levels i) xs
    → ((m : ℕ) → rest m ≡ take m all)
    → (if n == 0
        then []
        else if is_empty (l.levels i)
        then rest (wanted_after l i n)
        else depth_level b l i ∷ rest (wanted_after l i n))
      ≡ take n (rung b i xs all)
level_rung b l i zero xs rest all v h = refl
level_rung b l i (suc n) [] rest all v h =
    rw (==_false (suc n) 0 (λ e. omega arith)) (rw v.head (h (suc n)))
level_rung b l i (suc n) (x ∷ xs) rest all v h = rw (==_false (suc n) 0 (λ e. omega arith)) (
    rw (v.head, v.total)
      (ap
        (λ r.
          record { price = index_to_price b i; qty = quantity_sum b.heap (x ∷ xs) % 2 ^ 64 } ∷ r)
        (ap rest (less n) ∙ h n)))
  where
    less : (n : ℕ) → suc n - 1 ≡ n
    less n = omega arith

module _ (b : OrderBook) (l : Ladder) (q : ℕ → List ℕ)
    (v : (i : ℕ) → IsQueue b.heap (l.levels i) (q i)) where
  depth_down-take : (i n : ℕ) → depth_down b l i n ≡ take n (rungs_down b q i)
  unfolding depth_down
  depth_down-take zero zero = refl
  depth_down-take zero (suc n) = refl
  depth_down-take (suc i) n =
      level_rung b l i n (q i) (depth_down b l i) (rungs_down b q i) (v i) (depth_down-take i)

  depth_up-take : (left i n : ℕ) → depth_up b l left i n ≡ take n (rungs_up b q left i)
  unfolding depth_up
  depth_up-take zero i zero = refl
  depth_up-take zero i (suc n) = refl
  depth_up-take (suc left) i n =
      level_rung b l i n (q i) (depth_up b l left (i + 1)) (rungs_up b q left (i + 1)) (v i)
        (depth_up-take left (i + 1))

-- Empty levels above the best one add nothing.
rungs_down-above :
    (b : OrderBook) (q : ℕ → List ℕ) (n m : ℕ)
    → ((j : ℕ) → m ≤ j → q j ≡ [])
    → m ≤ n
    → rungs_down b q n ≡ rungs_down b q m
rungs_down-above b q zero m h le = let e : m ≡ 0 = omega arith in rw e refl
rungs_down-above b q (suc n) m h le = elim (dec_lt n m) [
  | yes lt ↦ let e : m ≡ suc n = omega arith in rw e refl
  | no ge ↦ rw (h n (omega arith)) (rungs_down-above b q n m h (omega arith))
]

-- And so with empty levels below it.
rungs_up-below :
    (b : OrderBook) (q : ℕ → List ℕ) (k n m i : ℕ)
    → n ≡ k + m
    → ((j : ℕ) → j < i + k → q j ≡ [])
    → rungs_up b q n i ≡ rungs_up b q m (i + k)
rungs_up-below b q zero n m i e h =
    let f : i + 0 ≡ i = omega arith in let g : n ≡ m = omega arith in rw (f, g) refl
rungs_up-below b q (suc k) zero m i e h = absurd (omega arith)
rungs_up-below b q (suc k) (suc n) m i e h =
    let f : i + 1 + k ≡ i + suc k = omega arith in
    rw (h i (omega arith)) (
      rungs_up-below b q k n m (i + 1) (omega arith) (λ j lt. h j (omega arith))
      ∙ ap (rungs_up b q m) f)

rungs_up-none :
    (b : OrderBook) (q : ℕ → List ℕ) (n i : ℕ) → ((j : ℕ) → q j ≡ []) → rungs_up b q n i ≡ []
rungs_up-none b q zero i h = refl
rungs_up-none b q (suc n) i h = rw (h i) (rungs_up-none b q n (i + 1) h)

rungs_down-none :
    (b : OrderBook) (q : ℕ → List ℕ) (n : ℕ) → ((j : ℕ) → q j ≡ []) → rungs_down b q n ≡ []
rungs_down-none b q zero h = refl
rungs_down-none b q (suc n) h = rw (h n) (rungs_down-none b q n h)

abbrev no_levels : List DepthLevel
no_levels = []

take-none : (n : ℕ) → take n no_levels ≡ no_levels
take-none zero = refl
take-none (suc n) = refl

-- The best level of a side is one of the book's.
best-lt : (q : ℕ → List ℕ) (n i : ℕ) → ((j : ℕ) → n ≤ j → q j ≡ []) → occupied (q i) ≡ 1 → i < n
best-lt q n i within some_order = elim (dec_lt i n) [
  | yes lt ↦ lt
  | no ge ↦ absurd (clash (ap occupied (within i (omega arith))))
]
  where
    clash : occupied (q i) ≡ 0 → ⊥
    clash e = omega (arith, some_order, e)

bids-get_depth :
    (b : OrderBook) (q : ℕ → List ℕ) (max_levels : ℕ)
    → IsLadder buy b.heap b.num_levels b.bids q
    → (get_depth b max_levels).0 ≡ take max_levels (rungs_down b q b.num_levels)
unfolding get_depth index_to_price
bids-get_depth b q n v = elim (Option-cases b.bids.best_idx) [
  | inl e ↦
      let gone = subst (λ o. IsBest buy o q) e v.best in
      rw (e, get_depth) (sym (ap (take n) (rungs_down-none b q b.num_levels gone) ∙ take-none n))
  | inr (i, e) ↦
      let (some_order, above) = subst (λ o. IsBest buy o q) e v.best in
      rw (e, get_depth)
        (depth_down-take b b.bids q v.queues (suc i) n
          ∙ ap (take n) (
              sym (
                rungs_down-above b q b.num_levels (suc i)
                  (λ j le. above j (lt→ltb i j (omega arith)))
                  (omega (arith, best-lt q b.num_levels i v.within some_order)))))
]

asks-get_depth :
    (b : OrderBook) (q : ℕ → List ℕ) (max_levels : ℕ)
    → IsLadder sell b.heap b.num_levels b.asks q
    → (get_depth b max_levels).1 ≡ take max_levels (rungs_up b q b.num_levels 0)
unfolding get_depth index_to_price
asks-get_depth b q n v = elim (Option-cases b.asks.best_idx) [
  | inl e ↦
      let gone = subst (λ o. IsBest sell o q) e v.best in
      rw (e, get_depth) (sym (ap (take n) (rungs_up-none b q b.num_levels 0 gone) ∙ take-none n))
  | inr (i, e) ↦
      let (some_order, below) = subst (λ o. IsBest sell o q) e v.best in
      let lt = best-lt q b.num_levels i v.within some_order in
      let start : 0 + i ≡ i = omega arith in
      rw (e, get_depth)
        (depth_up-take b b.asks q v.queues (b.num_levels - i) i n
          ∙ ap (take n) (
              sym (
                rungs_up-below b q i b.num_levels (b.num_levels - i) 0 (omega arith)
                  (λ j lt. below j (lt→ltb j i (omega arith)))
                ∙ ap (rungs_up b q (b.num_levels - i)) start)))
]

-- On a right book `getDepth` gives, for each side, the first `max_levels` of all the levels that
-- hold an order, best first, each with its price and the shares that rest there, modulo 2 ^ 64.
pub get_depth-take :
    (b : OrderBook) (q : Queues) (fs live : List ℕ) (max_levels : ℕ)
    → IsBook b q fs live
    → get_depth b max_levels ≡ (
      take max_levels (rungs_down b (q buy) b.num_levels),
      take max_levels (rungs_up b (q sell) b.num_levels 0),
    )
get_depth-take b q fs live max_levels v =
    ap₂ (λ x y. (x, y)) (bids-get_depth b (q buy) max_levels (v.ladders buy))
      (asks-get_depth b (q sell) max_levels (v.ladders sell))
