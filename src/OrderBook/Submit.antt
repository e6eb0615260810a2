-- ===== src/OrderBook/Submit.antt =====
-- `submitLimit` and `submitMarket` of src/orderbook.cpp.
use ultra_low_latency_orderb.OrderBook.MarketLimit.{AreOf}
use native.Mathlib.Decide.{dec_lt}
use ultra_low_latency_orderb.Prelude.{
  ℕ, ◌+◌, ◌^◌, ◌<◌, ◌≤◌, ◌≡◌, ◌∙◌, refl, ap, subst, ◌⊎◌, inl, inr, true, none, some, List, [], ◌∷◌,
  ◌++◌, arith, lt→ltb, ◌∈◌, has-append,
}
use ultra_low_latency_orderb.Prelude.Int.{ℤ}
use ultra_low_latency_orderb.Types.{Side, buy, sell, Trade, new_order}
use ultra_low_latency_orderb.OrderBook.{
  OrderBook, opposite, index_to_price, price_to_index, in_range, add_order_with_id,
}
use ultra_low_latency_orderb.OrderBook.Matching.{match_order, submit_limit, rest_remainder, beyond}
use ultra_low_latency_orderb.OrderBook.Shape.{IsBook, IsBest, Queues, put}
use ultra_low_latency_orderb.OrderBook.Assemble.{with_side-has}
use ultra_low_latency_orderb.OrderBook.Add.{add_order_with_id-IsAdded}
use ultra_low_latency_orderb.OrderBook.MatchBook.{trade_sum, AreWithin, IsStopped, MatchRun}
use ultra_low_latency_orderb.OrderBook.MatchTotal.{match_order-MatchRun}
use ultra_low_latency_orderb.OrderBook.Uncrossed.{
  IsUncrossed, Apart, not_both, known-IsBest, Apart-IsUncrossed, IsUncrossed-Apart, MatchRun-Apart,
  rest_below, rest_above, occupied_put,
}

-- With shares left over, a stopped match leaves the remainder's level apart from the other side.
put-Apart :
    (b : OrderBook) (q : Queues) (fs live : List ℕ) (side : Side) (price : ℤ) (rem slot : ℕ)
    → IsBook b q fs live
    → Apart q
    → in_range b price ≡ true
    → 0 < rem
    → IsStopped side price rem b
    → Apart (put side (price_to_index b price) slot q)
put-Apart b q fs live buy price rem slot v a ok more why i j bi aj =
    let (y, ey, by) = known-IsBest b q fs live sell j v aj in
    elim (occupied_put (q buy) (price_to_index b price) slot i bi) [
      | inr old ↦ a i j old aj
      | inl new ↦ omega (arith, limit y ey why, bottom y by)
    ]
  where
    limit :
        (y : ℕ) → b.asks.best_idx ≡ some y → IsStopped buy price rem b → price_to_index b price < y
    limit y e (inl z) = absurd (omega arith)
    limit y e (inr (inl n)) = cc
    limit y e (inr (inr (k, f, out))) = rest_below b price y ok (same k f out)
      where
        same :
            (k : ℕ)
            → b.asks.best_idx ≡ some k
            → beyond buy price (index_to_price b k) ≡ true
            → beyond buy price (index_to_price b y) ≡ true
        same k f out = subst (λ m. beyond buy price (index_to_price b m) ≡ true) (cc) out

    bottom : (y : ℕ) → IsBest sell (some y) (q sell) → y ≤ j
    bottom y b' = elim (dec_lt j y) [
      | yes p ↦ absurd (not_both (q sell j) aj (b'.1 j (lt→ltb j y p)))
      | no p ↦ omega arith
    ]
put-Apart b q fs live sell price rem slot v a ok more why i j bi aj =
    let (x, ex, bx) = known-IsBest b q fs live buy i v bi in
    elim (occupied_put (q sell) (price_to_index b price) slot j aj) [
      | inr old ↦ a i j bi old
      | inl new ↦ omega (arith, limit x ex why, top x bx)
    ]
  where
    limit :
        (x : ℕ) → b.bids.best_idx ≡ some x → IsStopped sell price rem b → x < price_to_index b price
    limit x e (inl z) = absurd (omega arith)
    limit x e (inr (inl n)) = cc
    limit x e (inr (inr (k, f, out))) = rest_above b price x ok (same k f out)
      where
        same :
            (k : ℕ)
            → b.bids.best_idx ≡ some k
            → beyond sell price (index_to_price b k) ≡ true
            → beyond sell price (index_to_price b x) ≡ true
        same k f out = subst (λ m. beyond sell price (index_to_price b m) ≡ true) (cc) out

    top : (x : ℕ) → IsBest buy (some x) (q buy) → i ≤ x
    top x b' = elim (dec_lt x i) [
      | yes p ↦ absurd (not_both (q buy i) bi (b'.1 i (lt→ltb x i p)))
      | no p ↦ omega arith
    ]

in_range_same :
    (b c : OrderBook) (p : ℤ)
    → c.min_price ≡ b.min_price
    → c.max_price ≡ b.max_price
    → in_range c p ≡ in_range b p
unfolding in_range
in_range_same b c p e f = rw (e, f) refl

-- What `submitLimit` leaves: a right book that is not crossed, trades of no more than the quantity,
-- all at prices within the limit, and the rest of the quantity resting under the taker's id.
pub record IsSubmitted (side : Side) (price : ℤ) (quantity taker : ℕ) (trades : List Trade)
    (b' : OrderBook) : Type 0 where
  pub queues : Queues
  pub free : List ℕ
  pub live : List ℕ
  pub book : IsBook b' queues free live
  pub uncrossed : IsUncrossed b'
  pub within : AreWithin side price taker trades
  pub rest :
      (trade_sum trades ≡ quantity)
      ⊎ ((slot : ℕ) × (b'.orders taker ≡ some slot)
          × ((b'.heap slot).side ≡ side)
          × ((b'.heap slot).price ≡ price)
          × (trade_sum trades + (b'.heap slot).quantity ≡ quantity))

rest_remainder-none :
    (b : OrderBook) (side : Side) (price : ℤ) (taker : ℕ)
    → rest_remainder b side price 0 taker ≡ some b
unfolding rest_remainder
rest_remainder-none b side price taker = refl

rest_remainder-some :
    (b b' : OrderBook) (side : Side) (price : ℤ) (rem taker id : ℕ)
    → 0 < rem
    → add_order_with_id b side price rem taker ≡ some (id, b')
    → rest_remainder b side price rem taker ≡ some b'
unfolding rest_remainder
rest_remainder-some b b' side price rem taker id more e = rw (lt→ltb 0 rem more) (rw e refl)

pub slot_queued : (side : Side) (q : Queues) (idx slot : ℕ) → slot ∈ put side idx slot q side idx
slot_queued side q idx slot =
    with_side-has side q idx slot (q side idx ++ (slot ∷ [])) (last (q side idx))
  where
    last : (xs : List ℕ) → slot ∈ (xs ++ (slot ∷ []))
    last xs = ground (arith, has-append slot xs (slot ∷ []))

module _ (b : OrderBook) (q : Queues) (fs live : List ℕ) (side : Side) (price : ℤ)
    (quantity taker : ℕ) (v : IsBook b q fs live) (u : IsUncrossed b) (ok : in_range b price ≡ true)
    (new : b.orders taker ≡ none) (word : quantity < 2 ^ 64) where
  rest_of :
      (run : MatchRun b q live side price taker quantity []
        (match_order b side price quantity taker []))
      → (b' : OrderBook) × (rest_remainder run.after side price run.left taker ≡ some b')
        × IsSubmitted side price quantity taker run.made b'
  unfolding new_order
  rest_of run = elim (dec_lt 0 run.left) [
    | no p ↦ (
      run.after,
      ap (λ r. rest_remainder run.after side price r taker) (omega arith)
          ∙ rest_remainder-none run.after side price taker,
      record {
        queues = run.queues;
        free = run.free;
        live = run.still_live;
        book = run.book;
        uncrossed = IsUncrossed-Apart run.after run.queues run.free run.still_live run.book apart;
        within = run.within;
        rest = inl (omega (arith, run.conserves));
      },
    )
    | yes more ↦
        let ok' = in_range_same b run.after price run.span.low run.span.high ∙ ok in
        let (b', e, x) =
          add_order_with_id-IsAdded run.after run.queues run.free run.still_live side price run.left
            taker run.book ok' (run.unmapped taker new) (omega (arith, run.conserves)) in
        let idx = price_to_index run.after price in
        (
          b',
          rest_remainder-some run.after b' side price run.left taker taker more e,
          record {
            queues = put side idx x.slot run.queues;
            free = x.free;
            live = x.slot ∷ run.still_live;
            book = x.book;
            uncrossed =
                IsUncrossed-Apart b' (put side idx x.slot run.queues) x.free
                  (x.slot ∷ run.still_live) x.book
                  (put-Apart run.after run.queues run.free run.still_live side price run.left x.slot
                    run.book apart ok' more run.stopped);
            within = run.within;
            rest = inr (
              x.slot,
              subst (λ k. b'.orders k ≡ some x.slot) (ap (λ o. o.id) x.stored)
                  (x.book.placed side idx x.slot (slot_queued side run.queues idx x.slot)).mapped,
              ap (λ o. o.side) x.stored,
              ap (λ o. o.price) x.stored,
              omega (arith, ap (λ o. o.quantity) x.stored, run.conserves),
            );
          },
        )
  ]
    where
      apart : Apart run.queues
      apart =
          MatchRun-Apart b q run.queues side run.own_side run.other_side
            (Apart-IsUncrossed b q fs live v u)

  -- On a right book that is not crossed, `submitLimit` of a 64-bit quantity at a price in range
  -- under an id that is not in the map always ends, and leaves the book right and not crossed (`IsSubmitted`): the trades take no more than
  -- the quantity, only at prices that the limit allows, and what they do not take rests.
  pub submit_limit-IsSubmitted :
      (trades : List Trade) × (b' : OrderBook) × (submit_limit b side price quantity taker
        ≡ some (trades, b'))
      × IsSubmitted side price quantity taker trades b'
  unfolding submit_limit
  submit_limit-IsSubmitted =
      let run = match_order-MatchRun b q fs live side price quantity taker [] v in
      let (b', e, x) = rest_of run in (run.made, b', rw run.runs (rw e refl), x)

-- What `submitMarket` leaves: a right book on whose own side nothing has come to rest, and a
-- quantity left over only where the other side is empty.
pub record IsSwept (b : OrderBook) (q : Queues) (side : Side) (quantity taker : ℕ)
    (trades : List Trade) (b' : OrderBook) : Type 0 where
  pub queues : Queues
  pub free : List ℕ
  pub live : List ℕ
  pub left : ℕ
  pub book : IsBook b' queues free live
  pub conserves : trade_sum trades + left ≡ quantity
  pub made_by : AreOf side taker trades
  pub own_side : (i : ℕ) → queues side i ≡ q side i
  pub unmapped : (id : ℕ) → b.orders id ≡ none → b'.orders id ≡ none
  pub emptied : (left ≡ 0) ⊎ ((i : ℕ) → queues (opposite side) i ≡ [])
