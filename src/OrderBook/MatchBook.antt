-- ===== src/OrderBook/MatchBook.antt =====
-- The outer loop of `match` in src/orderbook.cpp: it ends, conserves shares, trades within the
-- limit only, and leaves no resting order that the limit reaches while shares are left.
use mathlib.Core.List.{append-nil}
use ultra_low_latency_orderb.Prelude.{
  ℕ, zero, suc, ◌+◌, ◌<◌, ◌≤◌, ◌≡◌, ◌∙◌, refl, sym, ap, ◌⊎◌, true, false, Option, none, some, List,
  [], ◌∷◌, ◌++◌, map, length, ◌∈◌, arith, ==_true, erase, lt→ltb, length-erase, has-erase_ne,
  Distinct,
}
use ultra_low_latency_orderb.Prelude.Int.{ℤ}
use ultra_low_latency_orderb.Types.{Side, Trade}
use ultra_low_latency_orderb.OrderBook.{OrderBook, ladder, opposite, index_to_price}
use ultra_low_latency_orderb.OrderBook.Matching.{match_level, match_levels, beyond, Matched}
use ultra_low_latency_orderb.OrderBook.Shape.{IsBook, Queues}
use ultra_low_latency_orderb.OrderBook.Assemble.{differ, SameSpan}
use ultra_low_latency_orderb.OrderBook.Fills.{Entry, trade_of, entry_sum}

-- Distinct members of a list are no more than it has.
length-le_of_subset :
    (xs ys : List ℕ) → Distinct xs → ((a : ℕ) → a ∈ xs → a ∈ ys) → length xs ≤ length ys
length-le_of_subset [] ys d h = omega arith
length-le_of_subset (x ∷ xs) ys d h =
    let i : x ∈ ys = h x (rw (==_true x x refl) refl) in
    omega (
      arith,
      length-erase ys x i,
      length-le_of_subset xs (erase x ys) d.1
          (λ a j. rw (has-erase_ne a x ys (differ a x xs j d.0)) (h a (later a j))),
    )
  where
    later : (a : ℕ) → a ∈ xs → a ∈ (x ∷ xs)
    later a j = ground arith

-- A level holds no more orders than there are live slots.
pub length-queue :
    (b : OrderBook) (q : Queues) (fs live : List ℕ) (s : Side) (i : ℕ)
    → IsBook b q fs live
    → length (q s i) ≤ length live
length-queue b q fs live s i v =
    length-le_of_subset (q s i) live (((v.ladders s).queues i).distinct)
      (λ a j. (v.placed s i a j).is_live)

-- The shares of a list of trades.
abbrev pub trade_sum : List Trade → ℕ
trade_sum [] = 0
trade_sum (t ∷ ts) = t.quantity + trade_sum ts

-- Every trade is the taker's, at a price that its limit allows.
abbrev pub AreWithin : Side → ℤ → ℕ → List Trade → Type 0
AreWithin side limit taker [] = Unit {0}
AreWithin side limit taker (t ∷ ts) =
    ((beyond side limit t.price ≡ false) × (t.taker_id ≡ taker) × (t.taker_side ≡ side))
    × AreWithin side limit taker ts

pub trade_sum-append : (xs ys : List Trade) → trade_sum (xs ++ ys) ≡ trade_sum xs + trade_sum ys
trade_sum-append [] ys = omega arith
trade_sum-append (x ∷ xs) ys = omega (arith, trade_sum-append xs ys)

pub AreWithin-append :
    (side : Side) (limit : ℤ) (taker : ℕ) (xs ys : List Trade)
    → AreWithin side limit taker xs
    → AreWithin side limit taker ys
    → AreWithin side limit taker (xs ++ ys)
AreWithin-append side limit taker [] ys h k = k
AreWithin-append side limit taker (x ∷ xs) ys h k =
    (h.0, AreWithin-append side limit taker xs ys h.1 k)

pub trade_sum-trades :
    (side : Side) (taker : ℕ) (price : ℤ) (es : List Entry)
    → trade_sum (map (trade_of side taker price) es) ≡ entry_sum es
trade_sum-trades side taker price [] = refl
trade_sum-trades side taker price ((id, n) ∷ es) =
    omega (arith, trade_sum-trades side taker price es)

pub AreWithin-trades :
    (side : Side) (limit : ℤ) (taker : ℕ) (price : ℤ) (es : List Entry)
    → beyond side limit price ≡ false
    → AreWithin side limit taker (map (trade_of side taker price) es)
AreWithin-trades side limit taker price [] h = tt
AreWithin-trades side limit taker price ((id, n) ∷ es) h =
    ((h, refl, refl), AreWithin-trades side limit taker price es h)

-- The loop of `match` has a reason to stop: nothing is left to fill, nothing rests on the other
-- side, or its best price is beyond the limit.
abbrev pub IsStopped : Side → ℤ → ℕ → OrderBook → Type 0
IsStopped side limit rem b =
    (rem ≡ 0)
    ⊎ (((ladder (opposite side) b).best_idx ≡ none)
        ⊎ ((i : ℕ) × ((ladder (opposite side) b).best_idx ≡ some i)
            × (beyond side limit (index_to_price b i) ≡ true)))

-- What `match` comes to, from a book `b` with queues `q`.
pub record MatchRun (b : OrderBook) (q : Queues) (live : List ℕ) (side : Side) (limit : ℤ)
    (taker rem : ℕ) (trades : List Trade) (result : Option Matched) : Type 0 where
  pub left : ℕ
  pub made : List Trade
  pub after : OrderBook
  pub queues : Queues
  pub free : List ℕ
  pub still_live : List ℕ
  pub runs : result ≡ some (left, trades ++ made, after)
  pub book : IsBook after queues free still_live
  pub conserves : trade_sum made + left ≡ rem
  pub within : AreWithin side limit taker made
  pub own_side : (i : ℕ) → queues side i ≡ q side i
  pub other_side : (i : ℕ) → q (opposite side) i ≡ [] → queues (opposite side) i ≡ []
  pub unmapped : (id : ℕ) → b.orders id ≡ none → after.orders id ≡ none
  pub stopped : IsStopped side limit left after
  pub span : SameSpan b after

module _ (side : Side) (limit : ℤ) (taker inner : ℕ) where
  -- The loop ends at once where it has a reason to.
  pub run_stopped :
      (rem : ℕ) (trades : List Trade) (b : OrderBook) (q : Queues) (fs live : List ℕ)
      (result : Option Matched)
      → IsBook b q fs live
      → IsStopped side limit rem b
      → result ≡ some (rem, trades, b)
      → MatchRun b q live side limit taker rem trades result
  run_stopped rem trades b q fs live result v why e = record {
    left = rem;
    made = [];
    after = b;
    queues = q;
    free = fs;
    still_live = live;
    runs = e ∙ ap (λ t. some (rem, t, b)) (sym (append-nil trades));
    book = v;
    conserves = omega arith;
    within = tt;
    own_side = λ i. refl;
    other_side = λ i e. e;
    unmapped = λ id e. e;
    stopped = why;
    span = record { low = refl; high = refl; levels = refl };
  }

  pub match_levels-zero :
      (fuel : ℕ) (trades : List Trade) (b : OrderBook)
      → 0 < fuel
      → match_levels fuel inner side limit taker 0 trades b ≡ some (0, trades, b)
  unfolding match_levels
  match_levels-zero zero trades b h = absurd (omega arith)
  match_levels-zero (suc fuel) trades b h = refl

  pub match_levels-none :
      (fuel rem : ℕ) (trades : List Trade) (b : OrderBook)
      → 0 < rem
      → (ladder (opposite side) b).best_idx ≡ none
      → match_levels (suc fuel) inner side limit taker rem trades b ≡ some (rem, trades, b)
  unfolding match_levels
  match_levels-none fuel rem trades b p e = rw (lt→ltb 0 rem p) (rw (e, match_levels) refl)

  pub match_levels-beyond :
      (fuel rem best : ℕ) (trades : List Trade) (b : OrderBook)
      → 0 < rem
      → (ladder (opposite side) b).best_idx ≡ some best
      → beyond side limit (index_to_price b best) ≡ true
      → match_levels (suc fuel) inner side limit taker rem trades b ≡ some (rem, trades, b)
  unfolding match_levels
  match_levels-beyond fuel rem best trades b p e out =
      rw (lt→ltb 0 rem p) (rw (e, match_levels) (rw out refl))

  pub match_levels-level :
      (fuel rem best : ℕ) (trades : List Trade) (b : OrderBook)
      → 0 < rem
      → (ladder (opposite side) b).best_idx ≡ some best
      → beyond side limit (index_to_price b best) ≡ false
      → (rem' : ℕ) (trades' : List Trade) (b' : OrderBook)
      → match_level inner side taker (opposite side) best (index_to_price b best) rem trades b
        ≡ some (rem', trades', b')
      → match_levels (suc fuel) inner side limit taker rem trades b
        ≡ match_levels fuel inner side limit taker rem' trades' b'
  unfolding match_levels
  match_levels-level fuel rem best trades b p e inside rem' trades' b' run =
      rw (lt→ltb 0 rem p) (rw (e, match_levels) (rw inside (rw run refl)))
