-- ===== src/OrderBook/Resting.antt =====
-- The shares that rest on one side of src/orderbook.cpp's book, over all of its levels.
use native.Mathlib.Decide.{ℕ_discrete}
use ultra_low_latency_orderb.Prelude.{
  ℕ, zero, suc, ◌+◌, ◌<◌, ◌≡◌, ◌≢◌, refl, sym, ap, subst, List, arith,
}
use ultra_low_latency_orderb.Types.{Side}
use ultra_low_latency_orderb.PriceLevel.{Heap}
use ultra_low_latency_orderb.OrderBook.{OrderBook}
use ultra_low_latency_orderb.OrderBook.Shape.{Queues}
use ultra_low_latency_orderb.OrderBook.Fills.{Entry, entries, entry_sum, entries_same}
use ultra_low_latency_orderb.OrderBook.HeadMaker.{AfterLevel}

-- The shares of the first `n` levels, whose queues are `f`.
abbrev pub resting : Heap → (ℕ → List ℕ) → ℕ → ℕ
resting h f zero = 0
resting h f (suc n) = entry_sum (entries h (f n)) + resting h f n

resting_same :
    (h g : Heap) (f k : ℕ → List ℕ) (i n : ℕ)
    → ((j : ℕ) → j ≢ i → entries g (k j) ≡ entries h (f j))
    → (i < n → ⊥)
    → resting g k n ≡ resting h f n
resting_same h g f k i zero same out = refl
resting_same h g f k i (suc n) same out = omega (
  arith,
  ap entry_sum (same n (λ e. out (omega (arith, e)))),
  resting_same h g f k i n same (λ lt. out (omega (arith, lt))),
)

-- Where one level has changed, the sum has changed by as much as that level's shares.
resting_change :
    (h g : Heap) (f k : ℕ → List ℕ) (i n : ℕ)
    → ((j : ℕ) → j ≢ i → entries g (k j) ≡ entries h (f j))
    → i < n
    → resting g k n + entry_sum (entries h (f i)) ≡ resting h f n + entry_sum (entries g (k i))
resting_change h g f k i zero same lt = absurd (omega arith)
resting_change h g f k i (suc n) same lt = elim (ℕ_discrete i n) [
  | yes e ↦
      let below = resting_same h g f k i n same (λ m. omega (arith, m, e)) in
      let one : entry_sum (entries g (k n)) ≡ entry_sum (entries g (k i)) =
        ap (λ j. entry_sum (entries g (k j))) (sym e) in
      let two : entry_sum (entries h (f n)) ≡ entry_sum (entries h (f i)) =
        ap (λ j. entry_sum (entries h (f j))) (sym e) in
      omega (arith, below, one, two)
  | no ne ↦
      let there = ap entry_sum (same n (λ e. ne (sym e))) in
      omega (arith, there, resting_change h g f k i n same (below i n ne lt))
]
  where
    below : (i n : ℕ) → i ≢ n → i < suc n → i < n
    below i n ne lt = ground arith

-- The sum after level `i` was worked on.
pub resting-AfterLevel :
    (b c : OrderBook) (q : Queues) (live : List ℕ) (s : Side) (i n : ℕ) (es : List Entry)
    → (x : AfterLevel b q live s i es c) → i < n
    → resting c.heap (x.queues s) n + entry_sum (entries b.heap (q s i))
      ≡ resting b.heap (q s) n + entry_sum es
resting-AfterLevel b c q live s i n es x lt =
    subst
      (λ k.
        resting c.heap (x.queues s) n + entry_sum (entries b.heap (q s i))
        ≡ resting b.heap (q s) n + entry_sum k)
      x.shows (resting_change b.heap c.heap (q s) (x.queues s) i n same lt)
  where
    same : (j : ℕ) → j ≢ i → entries c.heap (x.queues s j) ≡ entries b.heap (q s j)
    same j ne =
        let o : (s ≡ s) × (j ≡ i) → ⊥ = λ p. ne p.1 in
        rw (x.others s j o) (
          entries_same b.heap c.heap (q s j)
            (λ a m. (ap (λ o. o.id) (x.kept s j a o m), ap (λ o. o.quantity) (x.kept s j a o m))))
