-- ===== src/OrderBook/SweepFacts.antt =====
-- What a round of `executeMarketOrder` in src/orderbook.cpp finds at its level and why it stops.
use native.Mathlib.Decide.{ℕ_discrete}
use ultra_low_latency_orderb.Prelude.{
  ℕ, ◌-◌, ◌%◌, ◌^◌, ◌<◌, ◌≤◌, ◌≡◌, ◌≢◌, ◌∙◌, ◌⊎◌, inl, inr, refl, sym, ap, true, Option, none, some,
  List, [], ◌∷◌, arith, min,
}
use ultra_low_latency_orderb.Types.{Side, buy, sell}
use ultra_low_latency_orderb.PriceLevel.{Heap}
use ultra_low_latency_orderb.PriceLevel.Queue.{quantity_sum}
use ultra_low_latency_orderb.OrderBook.{OrderBook, ladder}
use ultra_low_latency_orderb.OrderBook.Shape.{occupied, beats, IsBest, IsBook, Queues}
use ultra_low_latency_orderb.OrderBook.Fills.{
  Entry, entries, entry_sum, fill_queue, fill_queue_conserves, fill_queue_stops,
}

entry_sum-entries : (h : Heap) (xs : List ℕ) → entry_sum (entries h xs) ≡ quantity_sum h xs
entry_sum-entries h [] = refl
entry_sum-entries h (x ∷ xs) = omega (arith, entry_sum-entries h xs)

-- The total of a level is the sum of its shares, as far as 64 bits show it.
pub level_total :
    (b : OrderBook) (q : Queues) (fs live : List ℕ) (s : Side) (i : ℕ)
    → IsBook b q fs live
    → ((ladder s b).levels i).total_quantity ≡ entry_sum (entries b.heap (q s i)) % 2 ^ 64
level_total b q fs live s i v =
    ((v.ladders s).queues i).total ∙ ap (λ n. n % 2 ^ 64) (sym (entry_sum-entries b.heap (q s i)))

-- Where one level has changed and still holds an order, the best index that led to it still does.
pub best_stays :
    (s : Side) (o : Option ℕ) (f g : ℕ → List ℕ) (i : ℕ)
    → IsBest s (some i) f
    → IsBest s o g
    → occupied (g i) ≡ 1
    → ((j : ℕ) → j ≢ i → g j ≡ f j)
    → o ≡ some i
best_stays s none f g i old new held same = absurd (omega (arith, held, ap occupied (new i)))
best_stays s (some j) f g i old new held same = elim (ℕ_discrete j i) [
  | yes e ↦ ap some e
  | no ne ↦ elim (one_beats s i j ne) [
    | inl worse ↦ absurd (omega (arith, held, ap occupied (new.1 i worse)))
    | inr better ↦ absurd (omega (arith, new.0, ap occupied (same j ne ∙ old.1 j better)))
  ]
]
  where
    one_beats : (s : Side) (i j : ℕ) → j ≢ i → (beats s i j ≡ true) ⊎ (beats s j i ≡ true)
    one_beats buy i j ne = ground arith
    one_beats sell i j ne = ground arith

-- Why it stops: all is filled, or the side is empty, or its best level says that it has no shares.
abbrev pub IsSpent : OrderBook → Side → ℕ → Type 0
IsSpent b s left =
    (left ≡ 0)
    ⊎ (((ladder s b).best_idx ≡ none)
        ⊎ ((i : ℕ) × ((ladder s b).best_idx ≡ some i)
            × (((ladder s b).levels i).total_quantity ≡ 0)))

-- What is filled of a level whose total is not zero, and why no more.
pub filled_facts :
    (total rem : ℕ) (es : List Entry)
    → 0 < total
    → 0 < rem
    → total ≡ entry_sum es % 2 ^ 64
    → let fill = min rem total in
      let (_, left, rest) = fill_queue fill es in
      (0 < fill - left)
      × (fill - left ≤ rem)
      × ((rem - (fill - left) ≡ 0) ⊎ ((rest ≡ []) ⊎ (entry_sum rest % 2 ^ 64 ≡ 0)))
filled_facts total rem es some_total some_rem e =
    let fill = min rem total in
    let (one, two) = fill_queue_conserves fill es in
    elim (fill_queue_stops fill es) [
      | inl none_left ↦ (
        omega (arith, none_left),
        omega (arith, none_left),
        elim (compared rem total) [
          | inl le ↦ inl (omega (arith, none_left, le))
          | inr more ↦ inr (inr (omega (arith, none_left, one, two, e, more)))
        ],
      )
      | inr emptied ↦
          let gone : entry_sum (fill_queue fill es).2 ≡ 0 = ap entry_sum emptied in
          (omega (arith, one, two, gone, e), omega arith, inr (inl emptied))
    ]
  where
    compared : (m n : ℕ) → (m ≤ n) ⊎ (n < m)
    compared m n = omega arith

pub occupied_cases : (xs : List ℕ) → (xs ≡ []) ⊎ (occupied xs ≡ 1)
occupied_cases [] = inl refl
occupied_cases (x ∷ xs) = inr refl
