-- ===== src/OrderBook/Add.antt =====
-- `addOrder` of src/orderbook.cpp keeps the book's invariant, and puts the order last at its price.
use native.Mathlib.Decide.{ℕ_discrete}
use ultra_low_latency_orderb.Prelude.{
  ℕ, ◌^◌, ◌<◌, ◌≡◌, ◌≢◌, ◌∙◌, refl, sym, ap, ◌⊎◌, inl, inr, true, false, none, some, List, ◌∷◌, ◌∈◌,
  ◌∉◌, arith, ==_true, ==_false, ◌&&◌,
}
use ultra_low_latency_orderb.Prelude.Int.{ℤ, pos, pos_part, ◌+ℤ◌, ◌-ℤ◌, leb_ℤ}
use ultra_low_latency_orderb.Types.{Side, Order, new_order}
use ultra_low_latency_orderb.PriceLevel.Links.{bare, add_order-SameData}
use ultra_low_latency_orderb.ObjectPool.{ObjectPool}
use ultra_low_latency_orderb.ObjectPool.FreeList.{IsPool}
use ultra_low_latency_orderb.ObjectPool.Slots.{allocate-IsPool}
use ultra_low_latency_orderb.OrderBook.{
  OrderBook, ladder, price_to_index, in_range, register, link_order, add_order_with_id,
}
use ultra_low_latency_orderb.OrderBook.Shape.{IsFound, IsBook, Queues, put}
use ultra_low_latency_orderb.OrderBook.LadderSteps.{IsLadder-frame}
use ultra_low_latency_orderb.OrderBook.Assemble.{
  IsPlaced-same, IsFound-same, price_to_index_same, ladder_same, heap-with_ladder, differ,
}
use ultra_low_latency_orderb.OrderBook.Registered.{IsRegistered, link_order-IsBook}

in_span :
    (lo hi p : ℤ)
    → (leb_ℤ lo p && leb_ℤ p hi) ≡ true
    → pos_part (p -ℤ lo) < pos_part (hi -ℤ lo +ℤ pos 1)
unfolding ◌+ℤ◌ ◌-ℤ◌
in_span lo hi p h = ground arith

-- A price in range has a level.
in_range-lt :
    (b : OrderBook) (p : ℤ)
    → b.num_levels ≡ pos_part (b.max_price -ℤ b.min_price +ℤ pos 1)
    → in_range b p ≡ true
    → price_to_index b p < b.num_levels
unfolding in_range price_to_index
in_range-lt b p e h = rw e (in_span b.min_price b.max_price p h)

num_levels-register :
    (b : OrderBook) (slot : ℕ) (pool : ObjectPool) (o : Order)
    → (register b slot pool o).num_levels ≡ b.num_levels
unfolding register
num_levels-register b slot pool o = refl

heap-register_ne :
    (b : OrderBook) (slot : ℕ) (pool : ObjectPool) (o : Order) (a : ℕ)
    → a ≢ slot
    → (register b slot pool o).heap a ≡ b.heap a
unfolding register
heap-register_ne b slot pool o a ne = rw (==_false a slot ne) refl

heap-register_self :
    (b : OrderBook) (slot : ℕ) (pool : ObjectPool) (o : Order)
    → (register b slot pool o).heap slot ≡ o
unfolding register
heap-register_self b slot pool o = rw (==_true slot slot refl) refl

module _ (b : OrderBook) (q : Queues) (fs live rest : List ℕ) (v : IsBook b q fs live) (slot : ℕ)
    (pool : ObjectPool) (w : IsPool pool rest (slot ∷ live)) (s : Side) (price : ℤ)
    (quantity id : ℕ) (fresh_id : b.orders id ≡ none) (word : quantity < 2 ^ 64) where
  register-IsRegistered :
      IsRegistered
        (register b slot pool (new_order id s price quantity))
        q
        rest
        live
        s
        (price_to_index b price)
        slot
  unfolding register new_order
  register-IsRegistered = record {
    ladders = λ t. rw (ladder_same t b c refl refl) (
        IsLadder-frame t b.heap c.heap b.num_levels (ladder t b) (q t) (v.ladders t)
          (λ i a j. same a (v.placed t i a j).is_live));
    pool = w;
    placed = λ t i a j.
        let p = v.placed t i a j in
        IsPlaced-same b c live live t i a p (ap bare (same a p.is_live)) refl
          (rw (==_false (b.heap a).id id (other a p.mapped)) p.mapped) p.is_live;
    fresh = w.live_distinct.0;
    self = record {
      is_live = rw (==_true slot slot refl) refl;
      mapped = rw (==_true slot slot refl) (rw (==_true id id refl) refl);
      side = rw (==_true slot slot refl) refl;
      index = rw (==_true slot slot refl) (price_to_index_same b c price refl);
      word = rw (==_true slot slot refl) word;
    };
    found = λ i a e. entry i a (ℕ_discrete i id) e;
    spans = v.spans;
    total = v.total;
  }
    where
      c : OrderBook
      c = register b slot pool (new_order id s price quantity)

      same : (a : ℕ) → a ∈ live → c.heap a ≡ b.heap a
      same a i = rw (==_false a slot (differ a slot live i w.live_distinct.0)) refl

      other : (a : ℕ) → b.orders (b.heap a).id ≡ some a → (b.heap a).id ≢ id
      other a e x = clash (sym (ap b.orders x ∙ fresh_id) ∙ e)
        where
          clash : none ≡ some a → ⊥
          clash e = cc

      entry :
          (i a : ℕ)
          → Dec (i ≡ id)
          → c.orders i ≡ some a
          → ((a ≡ slot) × ((c.heap slot).id ≡ i)) ⊎ IsFound c q i a
      entry i a (yes e) h =
          inl (hit (rw (==_true i id e) at h), rw (==_true slot slot refl) (sym e))
        where
          hit : some slot ≡ some a → a ≡ slot
          hit h = cc
      entry i a (no ne) h =
          let f = v.found i a (rw (==_false i id ne) at h) in
          let p = v.placed (b.heap a).side (price_to_index b (b.heap a).price) a f.queued in
          inr (IsFound-same b c q q i a f (ap bare (same a p.is_live)) refl (λ t k j. j))

  -- The order rests last at its price, in the slot that the pool gave.
  registered-IsBook :
      in_range b price ≡ true
      → IsBook
          (link_order
            (register b slot pool (new_order id s price quantity))
            s
            (price_to_index b price)
            slot)
          (put s (price_to_index b price) slot q)
          rest
          (slot ∷ live)
  registered-IsBook ok =
      link_order-IsBook (register b slot pool (new_order id s price quantity)) q rest live s
        (price_to_index b price) slot register-IsRegistered
        (rw (levels_same) (in_range-lt b price v.spans ok))
    where
      levels_same : (register b slot pool (new_order id s price quantity)).num_levels ≡ b.num_levels
      levels_same = num_levels-register b slot pool (new_order id s price quantity)

link_order-data :
    (b : OrderBook) (s : Side) (idx slot a : ℕ)
    → bare ((link_order b s idx slot).heap a) ≡ bare (b.heap a)
unfolding link_order
link_order-data b s idx slot a =
    ap (λ h. bare (h a)) (heap-with_ladder s _ _)
    ∙ add_order-SameData b.heap ((ladder s b).levels idx) slot a

-- What an accepted `addOrder` leaves: the book `b'` under the same invariant, with the order in a
-- slot that was not live, last in the queue of its price, and every other order's data as it was.
pub record IsAdded (b : OrderBook) (q : Queues) (live : List ℕ) (s : Side) (o : Order)
    (b' : OrderBook) : Type 0 where
  pub slot : ℕ
  pub free : List ℕ
  pub book : IsBook b' (put s (price_to_index b o.price) slot q) free (slot ∷ live)
  pub fresh : slot ∉ live
  pub stored : bare (b'.heap slot) ≡ o
  pub others : (a : ℕ) → a ∈ live → bare (b'.heap a) ≡ bare (b.heap a)

-- On a book that is right, `addOrder` of a 64-bit quantity at a price in range under an id that is
-- not in the map never fails: it returns the id, and the order rests last at its price (`IsAdded`).
pub add_order_with_id-IsAdded :
    (b : OrderBook) (q : Queues) (fs live : List ℕ) (s : Side) (price : ℤ) (quantity id : ℕ)
    → IsBook b q fs live
    → in_range b price ≡ true
    → b.orders id ≡ none
    → quantity < 2 ^ 64
    → (b' : OrderBook) × (add_order_with_id b s price quantity id ≡ some (id, b'))
      × IsAdded b q live s (new_order id s price quantity) b'
unfolding add_order_with_id new_order
add_order_with_id-IsAdded b q fs live s price quantity id v ok fresh_id word =
    let (slot, pool, rest, e, w, out, came) = allocate-IsPool b.pool fs live v.pool in
    let o = new_order id s price quantity in
    let b1 = register b slot pool o in
    let b2 = link_order b1 s (price_to_index b price) slot in
    let kept = link_order-data b1 s (price_to_index b price) slot in
    let stored = kept slot ∙ ap bare (heap-register_self b slot pool o) in
    (
      b2,
      rw (ok) (rw (e, add_order_with_id) (ap (λ k. some (k, b2)) (ap (λ x. x.id) stored))),
      record {
        slot = slot;
        free = rest;
        book =
            registered-IsBook b q fs live rest v slot pool w s price quantity id fresh_id word ok;
        fresh = out;
        stored = stored;
        others =
            λ a i. kept a ∙ ap bare (heap-register_ne b slot pool o a (differ a slot live i out));
      },
    )

-- Out of range nothing is added: the result is 0, and the book is unchanged.
pub add_order_with_id_out_of_range :
    (b : OrderBook) (s : Side) (price : ℤ) (quantity id : ℕ)
    → in_range b price ≡ false
    → add_order_with_id b s price quantity id ≡ some (0, b)
unfolding add_order_with_id
add_order_with_id_out_of_range b s price quantity id e = rw e refl
