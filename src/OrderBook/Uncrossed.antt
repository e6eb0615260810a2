-- ===== src/OrderBook/Uncrossed.antt =====
-- A book whose best bid is below its best ask, for `submitLimit` of src/orderbook.cpp.
use native.Mathlib.Decide.{ℕ_discrete, dec_lt}
use ultra_low_latency_orderb.Prelude.{
  ℕ, ◌<◌, ◌≤◌, ◌≡◌, ◌∙◌, refl, sym, ap, subst, ◌⊎◌, inl, inr, Bool, true, Option, none, some, List,
  [], ◌∷◌, ◌++◌, write, arith, ==_false, lt→ltb, ◌&&◌,
}
use ultra_low_latency_orderb.Prelude.Int.{ℤ, ◌+ℤ◌, ◌-ℤ◌, pos, pos_part, leb_ℤ, ltb_ℤ}
use ultra_low_latency_orderb.Types.{Side, buy, sell}
use ultra_low_latency_orderb.OrderBook.{
  OrderBook, ladder, opposite, index_to_price, price_to_index, in_range,
}
use ultra_low_latency_orderb.OrderBook.Matching.{beyond}
use ultra_low_latency_orderb.OrderBook.Shape.{occupied, IsBook, IsBest, Queues}
use ultra_low_latency_orderb.OrderBook.MatchTotal.{best_level}

-- The best bid is below the best ask, where there are both.
abbrev pub IsUncrossed : OrderBook → Type 0
IsUncrossed b = (i j : ℕ) → b.bids.best_idx ≡ some i → b.asks.best_idx ≡ some j → i < j

-- The same of the queues: every bid rests below every ask.
abbrev pub Apart : Queues → Type 0
Apart q = (i j : ℕ) → occupied (q buy i) ≡ 1 → occupied (q sell j) ≡ 1 → i < j

pub not_both : (xs : List ℕ) → occupied xs ≡ 1 → xs ≡ [] → ⊥
not_both xs e f = ground (arith, ap occupied f)

-- The best index of a side that holds an order, and that no other order is better.
pub known-IsBest :
    (b : OrderBook) (q : Queues) (fs live : List ℕ) (s : Side) (i : ℕ)
    → IsBook b q fs live
    → occupied (q s i) ≡ 1
    → (k : ℕ) × ((ladder s b).best_idx ≡ some k) × IsBest s (some k) (q s)
known-IsBest b q fs live s i v e = go (ladder s b).best_idx refl
  where
    go :
        (o : Option ℕ)
        → (ladder s b).best_idx ≡ o
        → (k : ℕ) × ((ladder s b).best_idx ≡ some k) × IsBest s (some k) (q s)
    go none f = absurd (not_both (q s i) e (subst (λ o. IsBest s o (q s)) f (v.ladders s).best i))
    go (some k) f = (k, f, subst (λ o. IsBest s o (q s)) f (v.ladders s).best)

pub Apart-IsUncrossed :
    (b : OrderBook) (q : Queues) (fs live : List ℕ) → IsBook b q fs live → IsUncrossed b → Apart q
Apart-IsUncrossed b q fs live v u i j bi aj =
    let (x, ex, bx) = known-IsBest b q fs live buy i v bi in
    let (y, ey, by) = known-IsBest b q fs live sell j v aj in
    omega (arith, top i x bi bx, bottom j y aj by, u x y ex ey)
  where
    top : (i x : ℕ) → occupied (q buy i) ≡ 1 → IsBest buy (some x) (q buy) → i ≤ x
    top i x e b = elim (dec_lt x i) [
      | yes p ↦ absurd (not_both (q buy i) e (b.1 i (lt→ltb x i p)))
      | no p ↦ omega arith
    ]

    bottom : (j y : ℕ) → occupied (q sell j) ≡ 1 → IsBest sell (some y) (q sell) → y ≤ j
    bottom j y e b = elim (dec_lt j y) [
      | yes p ↦ absurd (not_both (q sell j) e (b.1 j (lt→ltb j y p)))
      | no p ↦ omega arith
    ]

pub IsUncrossed-Apart :
    (b : OrderBook) (q : Queues) (fs live : List ℕ) → IsBook b q fs live → Apart q → IsUncrossed b
IsUncrossed-Apart b q fs live v a i j e f =
    a i j (best_level b q fs live buy i v e).0 (best_level b q fs live sell j v f).0

occupied_cases : (xs : List ℕ) → (xs ≡ []) ⊎ (occupied xs ≡ 1)
occupied_cases [] = inl refl
occupied_cases (x ∷ xs) = inr refl

-- Matching does not cross a book.
pub MatchRun-Apart :
    (b : OrderBook) (q q' : Queues) (side : Side)
    → ((i : ℕ) → q' side i ≡ q side i)
    → ((i : ℕ) → q (opposite side) i ≡ [] → q' (opposite side) i ≡ [])
    → Apart q
    → Apart q'
MatchRun-Apart b q q' buy own other a i j bi aj = elim (occupied_cases (q sell j)) [
  | inl e ↦ absurd (not_both (q' sell j) aj (other j e))
  | inr e ↦ a i j (sym (ap occupied (own i)) ∙ bi) e
]
MatchRun-Apart b q q' sell own other a i j bi aj = elim (occupied_cases (q buy i)) [
  | inl e ↦ absurd (not_both (q' buy i) bi (other i e))
  | inr e ↦ a i j e (sym (ap occupied (own j)) ∙ aj)
]

-- A price in range and the price of a level are in the order of their indices.
index_order_buy :
    (lo p : ℤ) (j : ℕ) → leb_ℤ lo p ≡ true → ltb_ℤ p (lo +ℤ pos j) ≡ true → pos_part (p -ℤ lo) < j
unfolding ◌+ℤ◌ ◌-ℤ◌
index_order_buy lo p j h k = ground arith

index_order_sell :
    (lo p : ℤ) (j : ℕ) → leb_ℤ lo p ≡ true → ltb_ℤ (lo +ℤ pos j) p ≡ true → j < pos_part (p -ℤ lo)
unfolding ◌+ℤ◌ ◌-ℤ◌
index_order_sell lo p j h k = ground arith

and_left : (x y : Bool) → (x && y) ≡ true → x ≡ true
and_left x y h = ground arith

in_range_low : (b : OrderBook) (p : ℤ) → in_range b p ≡ true → leb_ℤ b.min_price p ≡ true
unfolding in_range
in_range_low b p h = and_left _ _ h

-- The remainder of a limit order rests on the right side of every order that is left.
pub rest_below :
    (b : OrderBook) (price : ℤ) (j : ℕ)
    → in_range b price ≡ true
    → beyond buy price (index_to_price b j) ≡ true
    → price_to_index b price < j
unfolding index_to_price price_to_index
rest_below b price j h k = index_order_buy b.min_price price j (in_range_low b price h) k

pub rest_above :
    (b : OrderBook) (price : ℤ) (j : ℕ)
    → in_range b price ≡ true
    → beyond sell price (index_to_price b j) ≡ true
    → j < price_to_index b price
unfolding index_to_price price_to_index
rest_above b price j h k = index_order_sell b.min_price price j (in_range_low b price h) k

pub occupied_put :
    (f : ℕ → List ℕ) (idx slot i : ℕ)
    → occupied (write f idx (f idx ++ (slot ∷ [])) i) ≡ 1
    → (i ≡ idx) ⊎ (occupied (f i) ≡ 1)
occupied_put f idx slot i e = elim (ℕ_discrete i idx) [
  | yes hit ↦ inl hit
  | no ne ↦ inr (rw (==_false i idx ne) at e)
]
