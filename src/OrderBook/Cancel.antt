-- ===== src/OrderBook/Cancel.antt =====
-- `cancelOrder` of src/orderbook.cpp keeps the book's invariant, and takes just the one order out.
use native.Mathlib.Decide.{ℕ_discrete, dec_lt}
use ultra_low_latency_orderb.Prelude.{
  ℕ, ◌<◌, ◌≡◌, ◌≢◌, ◌∙◌, refl, sym, ap, ◌⊎◌, inl, inr, true, false, Option, none, some, List, [],
  ◌∷◌, ◌==◌, if◌then◌else◌, ◌∈◌, ◌∉◌, has, write, arith, ==_true, ==_false, erase, sub64, points_at,
  has-erase_ne, has-erase_self, length-erase,
}
use ultra_low_latency_orderb.Types.{Side}
use ultra_low_latency_orderb.PriceLevel
use ultra_low_latency_orderb.PriceLevel.{Heap, PriceLevel}
use ultra_low_latency_orderb.PriceLevel.Links.{
  bare, SameData, remove_order_frame, remove_order-SameData,
}
use ultra_low_latency_orderb.PriceLevel.Fifo.{Links-prev, Links-next}
use ultra_low_latency_orderb.PriceLevel.Queue.{IsQueue}
use ultra_low_latency_orderb.PriceLevel.Remove.{remove_order-IsQueue}
use ultra_low_latency_orderb.ObjectPool.{deallocate}
use ultra_low_latency_orderb.ObjectPool.Slots.{deallocate-IsPool}
use ultra_low_latency_orderb.OrderBook.{
  OrderBook, Ladder, ladder, opposite, price_to_index, drop_order, cancel_order,
  ladder_after_remove, num_words,
}
use ultra_low_latency_orderb.OrderBook.Shape.{
  occupied, IsPlaced, IsFound, IsBook, Queues, with_side, cut,
}
use ultra_low_latency_orderb.OrderBook.LadderSteps.{ladder_after_remove-IsLadder, IsLadder-frame}
use ultra_low_latency_orderb.OrderBook.Assemble.{
  with_ladder-IsBook, has-with_side, with_side-has_old, IsPlaced-same, IsFound-same, opposite-ne,
  ladder_same, heap-with_ladder, orders-with_ladder, differ, absent,
}

points_at-none : (p : Option ℕ) (a : ℕ) → p ≡ none → points_at p a ≡ false
points_at-none p a e = rw e refl

points_at_other : (p : Option ℕ) (a b : ℕ) → p ≡ some b → b ≢ a → points_at p a ≡ false
points_at_other p a b e ne = rw e (==_false b a ne)

pub occupied_of_has : (a : ℕ) (xs : List ℕ) → a ∈ xs → occupied xs ≡ 1
occupied_of_has a [] i = ground arith
occupied_of_has a (x ∷ xs) i = refl

some_inj : (a b : ℕ) → some a ≡ some b → a ≡ b
some_inj a b e = cc

-- Where an order that the map leads to stands, and that no other slot stands there.
module _ (b : OrderBook) (q : Queues) (fs live : List ℕ) (v : IsBook b q fs live) (id slot : ℕ)
    (hit : b.orders id ≡ some slot) where
  abbrev pub side_of : Side
  side_of = (b.heap slot).side

  abbrev pub index_of : ℕ
  index_of = price_to_index b (b.heap slot).price

  pub queued : slot ∈ q side_of index_of
  queued = (v.found id slot hit).queued

  pub here : IsPlaced b live side_of index_of slot
  here = v.placed side_of index_of slot queued

  pub index_below : index_of < b.num_levels
  index_below = elim (dec_lt index_of b.num_levels) [
    | yes p ↦ p
    | no p ↦
        absurd
          (gone (q side_of index_of) ((v.ladders side_of).within index_of (omega arith)) queued)
  ]
    where
      gone : (xs : List ℕ) → xs ≡ [] → slot ∈ xs → ⊥
      gone xs e i = ground (arith, ap (has slot) e)

  -- An order of another queue is neither the order itself nor a neighbour of it.
  pub elsewhere :
      (t : Side) (i a : ℕ)
      → a ∈ q t i
      → ((t ≡ side_of) × (i ≡ index_of) → ⊥)
      → a ∉ q side_of index_of
  elsewhere t i a j other = absent a (q side_of index_of) (λ k. other (
    sym (v.placed t i a j).side ∙ (v.placed side_of index_of a k).side,
    sym (v.placed t i a j).index ∙ (v.placed side_of index_of a k).index,
  ))

  pub not_slot : (a : ℕ) → a ∉ q side_of index_of → a ≢ slot
  not_slot a out e = differ slot a (q side_of index_of) queued out (sym e)

  pub remove_frame :
      (t : Side) (i a : ℕ)
      → a ∈ q t i
      → ((t ≡ side_of) × (i ≡ index_of) → ⊥)
      → (PriceLevel.remove_order b.heap ((ladder side_of b).levels index_of) (some slot)).0 a
        ≡ b.heap a
  remove_frame t i a j other =
      let out = elsewhere t i a j other in
      let links = ((v.ladders side_of).queues index_of).links in
      remove_order_frame b.heap ((ladder side_of b).levels index_of) slot a (not_slot a out)
        (elim (Links-prev b.heap none (q side_of index_of) slot links queued) [
          | inl (_, e) ↦ points_at-none (b.heap slot).prev a e
          | inr (c, k, e) ↦
              points_at_other (b.heap slot).prev a c e (differ c a (q side_of index_of) k out)
        ])
        (elim (Links-next b.heap none (q side_of index_of) slot links queued) [
          | inl e ↦ points_at-none (b.heap slot).next a e
          | inr (c, k, e) ↦
              points_at_other (b.heap slot).next a c e (differ c a (q side_of index_of) k out)
        ])

  -- The same id is that of no other order.
  pub other_id : (a : ℕ) → b.orders (b.heap a).id ≡ some a → a ≢ slot → (b.heap a).id ≢ id
  other_id a e ne x = ne (some_inj a slot (sym e ∙ (ap b.orders x ∙ hit)))

  pub drop_order-IsBook :
      IsBook (drop_order b id slot) (cut side_of index_of slot q) (slot ∷ fs) (erase slot live)
  unfolding drop_order
  drop_order-IsBook =
      with_ladder-IsBook s c l q (write (q s) idx left) (slot ∷ fs) (erase slot live)
        (ladder_after_remove-IsLadder s b.heap g b.num_levels (num_words b) (ladder s b) (q s) idx
          gone.1 left (v.ladders s) index_below (omega arith)
          (occupied_of_has slot (q s idx) queued) out.0
          (λ i a ne j. remove_frame s i a j (λ e. ne e.1)))
        (rw (ladder_same (opposite s) b c refl refl) (
          IsLadder-frame (opposite s) b.heap g b.num_levels (ladder (opposite s) b) (q (opposite s))
            (v.ladders (opposite s))
            (λ i a j. remove_frame (opposite s) i a j (λ e. opposite-ne s e.0))))
        (deallocate-IsPool b.pool fs live slot v.pool here.is_live)
        (λ t i a j. placed t i a (has-with_side s t q idx i a left j))
        (λ i a e. found i a (ℕ_discrete i id) e) v.spans
        (omega (arith, v.total, length-erase live slot here.is_live))
    where
      s : Side
      s = side_of

      idx : ℕ
      idx = index_of

      left : List ℕ
      left = erase slot (q s idx)

      gone : Heap × PriceLevel
      gone = PriceLevel.remove_order b.heap ((ladder s b).levels idx) (some slot)

      g : Heap
      g = gone.0

      c : OrderBook
      c = record b {
        heap = g;
        orders = write b.orders id none;
        pool = deallocate b.pool (some slot);
        total_orders = sub64 b.total_orders 1;
      }

      l : Ladder
      l = ladder_after_remove s (num_words b) (ladder s b) idx gone.1

      out :
          IsQueue g gone.1 left
          × SameData b.heap g
          × ((g slot).next ≡ none)
          × ((g slot).prev ≡ none)
      out =
          remove_order-IsQueue b.heap ((ladder s b).levels idx) (q s idx) slot
            ((v.ladders s).queues idx) queued here.word

      kept : (t : Side) (i a : ℕ) → a ∈ q t i → a ≢ slot → IsPlaced c (erase slot live) t i a
      kept t i a j ne =
          let p = v.placed t i a j in
          IsPlaced-same b c live (erase slot live) t i a p (out.1 a) refl
            (rw (==_false (b.heap a).id id (other_id a p.mapped ne)) p.mapped)
            (rw (has-erase_ne a slot live ne) p.is_live)

      left_ne : (a : ℕ) → a ∈ left → a ≢ slot
      left_ne a j e =
          differ a slot left j (has-erase_self slot (q s idx) (((v.ladders s).queues idx).distinct))
            e

      placed :
          (t : Side) (i a : ℕ)
          → ((t ≡ s) × (i ≡ idx) × (a ∈ left)) ⊎ ((a ∈ q t i) × ((t ≡ s) × (i ≡ idx) → ⊥))
          → IsPlaced c (erase slot live) t i a
      placed t i a (inr (j, other)) = kept t i a j (not_slot a (elsewhere t i a j other))
      placed t i a (inl (e, f, j)) =
          let ne = left_ne a j in
          rw (e, f) (kept s idx a (rw (has-erase_ne a slot (q s idx) ne) at j) ne)

      found :
          (i a : ℕ)
          → Dec (i ≡ id)
          → c.orders i ≡ some a
          → IsFound c (with_side s (write (q s) idx left) q) i a
      found i a (yes e) h = absurd (clash (rw (==_true i id e) at h))
        where
          clash : none ≡ some a → ⊥
          clash h = cc
      found i a (no ne) h =
          let f = v.found i a (rw (==_false i id ne) at h) in
          let away : a ≢ slot =
            λ e. ne (sym f.same_id ∙ (ap (λ k. (b.heap k).id) e ∙ (v.found id slot hit).same_id)) in
          IsFound-same b c q (with_side s (write (q s) idx left) q) i a f (out.1 a) refl (λ t k j.
            with_side-has_old s t q idx k a left j (λ m. rw (has-erase_ne a slot (q s idx) away) m))

  drop_order-orders :
      (i : ℕ) → (drop_order b id slot).orders i ≡ (if i == id then none else b.orders i)
  unfolding drop_order
  drop_order-orders i = ap (λ f. f i) (orders-with_ladder side_of _ _)

  drop_order-data : (a : ℕ) → bare ((drop_order b id slot).heap a) ≡ bare (b.heap a)
  unfolding drop_order
  drop_order-data a =
      ap (λ h. bare (h a)) (heap-with_ladder side_of _ _)
      ∙ remove_order-SameData b.heap ((ladder side_of b).levels index_of) slot a

-- What a successful `cancelOrder` leaves: the book under the same invariant, with the order's slot
-- free and the order out of its queue and of the map, and all else as it was.
pub record IsCancelled (b : OrderBook) (q : Queues) (fs live : List ℕ) (id slot : ℕ)
    (b' : OrderBook) : Type 0 where
  pub book :
      IsBook b'
        (cut (b.heap slot).side (price_to_index b (b.heap slot).price) slot q)
        (slot ∷ fs)
        (erase slot live)
  pub was_live : slot ∈ live
  pub was_queued : slot ∈ q (b.heap slot).side (price_to_index b (b.heap slot).price)
  pub orders : (i : ℕ) → b'.orders i ≡ (if i == id then none else b.orders i)
  pub kept : (a : ℕ) → bare (b'.heap a) ≡ bare (b.heap a)

-- On a book that is right, `cancelOrder` of an id in the map returns true and takes that order, and
-- no other, out of the book (`IsCancelled`), whatever its place in its level.
pub cancel_order-IsCancelled :
    (b : OrderBook) (q : Queues) (fs live : List ℕ) (id slot : ℕ)
    → IsBook b q fs live
    → b.orders id ≡ some slot
    → ((cancel_order b id).0 ≡ true) × IsCancelled b q fs live id slot (cancel_order b id).1
unfolding cancel_order
cancel_order-IsCancelled b q fs live id slot v hit =
    rw (hit, cancel_order)
      (
        refl,
        record {
          book = drop_order-IsBook b q fs live v id slot hit;
          was_live = (here b q fs live v id slot hit).is_live;
          was_queued = queued b q fs live v id slot hit;
          orders = drop_order-orders b q fs live v id slot hit;
          kept = drop_order-data b q fs live v id slot hit;
        },
      )
