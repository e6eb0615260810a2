-- ===== src/OrderBook/Registered.antt =====
-- The book between the two halves of `addOrder` of src/orderbook.cpp: the order known, not linked yet.
use ultra_low_latency_orderb.Prelude.{
  ℕ, ◌%◌, ◌^◌, ◌<◌, ◌≡◌, ◌∙◌, refl, sym, ap, ◌⊎◌, inl, inr, some, List, [], ◌∷◌, ◌++◌, length, ◌∈◌,
  ◌∉◌, has-append, write, arith, add64,
}
use ultra_low_latency_orderb.Prelude.Int.{pos, pos_part, ◌+ℤ◌, ◌-ℤ◌}
use ultra_low_latency_orderb.Types.{Side}
use ultra_low_latency_orderb.PriceLevel
use ultra_low_latency_orderb.PriceLevel.{Heap, PriceLevel}
use ultra_low_latency_orderb.PriceLevel.Links.{SameData, add_order_frame}
use ultra_low_latency_orderb.PriceLevel.Queue.{IsQueue, last?-ne}
use ultra_low_latency_orderb.PriceLevel.Append.{add_order-IsQueue}
use ultra_low_latency_orderb.ObjectPool.FreeList.{IsPool}
use ultra_low_latency_orderb.OrderBook.{
  OrderBook, Ladder, ladder, opposite, link_order, ladder_after_add,
}
use ultra_low_latency_orderb.OrderBook.Shape.{
  IsLadder, IsPlaced, IsFound, IsBook, Queues, with_side, put,
}
use ultra_low_latency_orderb.OrderBook.LadderSteps.{ladder_after_add-IsLadder, IsLadder-frame}
use ultra_low_latency_orderb.OrderBook.Assemble.{
  with_ladder-IsBook, has-with_side, with_side-has, with_side-has_old, IsPlaced-same, IsFound-same,
  opposite-ne, ladder_same, differ, absent,
}

-- Between `orders_[o->id] = o` and the link: the order in `slot` is known, and in no queue.
pub record IsRegistered (b : OrderBook) (q : Queues) (fs live : List ℕ) (s : Side) (idx slot : ℕ)
    : Type 0 where
  pub ladders : (t : Side) → IsLadder t b.heap b.num_levels (ladder t b) (q t)
  pub pool : IsPool b.pool fs (slot ∷ live)
  pub placed : (t : Side) (i a : ℕ) → a ∈ q t i → IsPlaced b live t i a
  pub fresh : slot ∉ live
  pub self : IsPlaced b (slot ∷ live) s idx slot
  pub found :
      (id a : ℕ) → b.orders id ≡ some a → ((a ≡ slot) × ((b.heap slot).id ≡ id)) ⊎ IsFound b q id a
  pub spans : b.num_levels ≡ pos_part (b.max_price -ℤ b.min_price +ℤ pos 1)
  pub total : b.total_orders ≡ length live % 2 ^ 64

module _ (b : OrderBook) (q : Queues) (fs live : List ℕ) (s : Side) (idx slot : ℕ)
    (v : IsRegistered b q fs live s idx slot) where
  -- No order of another queue is touched.
  link_frame :
      (t : Side) (i a : ℕ)
      → a ∈ q t i
      → ((t ≡ s) × (i ≡ idx) → ⊥)
      → (PriceLevel.add_order b.heap ((ladder s b).levels idx) (some slot)).0 a ≡ b.heap a
  link_frame t i a j other =
      let out : a ∉ q s idx = absent a (q s idx) (λ k. other (
        sym (v.placed t i a j).side ∙ (v.placed s idx a k).side,
        sym (v.placed t i a j).index ∙ (v.placed s idx a k).index,
      )) in
      add_order_frame b.heap ((ladder s b).levels idx) slot a
        (differ a slot live (v.placed t i a j).is_live v.fresh)
        (rw (((v.ladders s).queues idx).tail) (last?-ne (q s idx) a out))

  not_queued : (t : Side) (i : ℕ) → slot ∉ q t i
  not_queued t i =
      absent slot (q t i) (λ k. differ slot slot live (v.placed t i slot k).is_live v.fresh refl)

  -- After step 3 the order stands last in the queue of its price.
  pub link_order-IsBook :
      idx < b.num_levels → IsBook (link_order b s idx slot) (put s idx slot q) fs (slot ∷ live)
  unfolding link_order
  link_order-IsBook lt =
      with_ladder-IsBook s c l q (write (q s) idx new) fs (slot ∷ live)
        (ladder_after_add-IsLadder s b.heap g b.num_levels (ladder s b) (q s) idx slot added.1
          (v.ladders s) lt out.0 (λ i a ne j. link_frame s i a j (λ e. ne e.1)))
        (rw (ladder_same (opposite s) b c refl refl) (
          IsLadder-frame (opposite s) b.heap g b.num_levels (ladder (opposite s) b) (q (opposite s))
            (v.ladders (opposite s))
            (λ i a j. link_frame (opposite s) i a j (λ e. opposite-ne s e.0))))
        v.pool (λ t i a j. placed t i a (has-with_side s t q idx i a new j))
        (λ id a e. found id a (v.found id a e)) v.spans (omega (arith, v.total))
    where
      new : List ℕ
      new = q s idx ++ (slot ∷ [])

      added : Heap × PriceLevel
      added = PriceLevel.add_order b.heap ((ladder s b).levels idx) (some slot)

      g : Heap
      g = added.0

      c : OrderBook
      c = record b { heap = g; total_orders = add64 b.total_orders 1 }

      l : Ladder
      l = ladder_after_add s (ladder s b) idx added.1

      out : IsQueue g added.1 new × SameData b.heap g
      out =
          add_order-IsQueue b.heap ((ladder s b).levels idx) (q s idx) slot
            ((v.ladders s).queues idx) (not_queued s idx)

      widen : (a : ℕ) → a ∈ live → a ∈ (slot ∷ live)
      widen a i = ground arith

      old : (t : Side) (i a : ℕ) → a ∈ q t i → IsPlaced c (slot ∷ live) t i a
      old t i a j =
          let p = v.placed t i a j in
          IsPlaced-same b c live (slot ∷ live) t i a p (out.1 a) refl p.mapped (widen a p.is_live)

      self : IsPlaced c (slot ∷ live) s idx slot
      self =
          IsPlaced-same b c (slot ∷ live) (slot ∷ live) s idx slot v.self (out.1 slot) refl
            v.self.mapped v.self.is_live

      place_new : (t : Side) (i a : ℕ) → t ≡ s → i ≡ idx → a ≡ slot → IsPlaced c (slot ∷ live) t i a
      place_new t i a e f x = rw (e, f, x) self

      one_of : (a : ℕ) (xs : List ℕ) → a ∈ (xs ++ (slot ∷ [])) → (a ∈ xs) ⊎ (a ≡ slot)
      one_of a xs i = ground (arith, has-append a xs (slot ∷ []))

      placed :
          (t : Side) (i a : ℕ)
          → ((t ≡ s) × (i ≡ idx) × (a ∈ new)) ⊎ ((a ∈ q t i) × ((t ≡ s) × (i ≡ idx) → ⊥))
          → IsPlaced c (slot ∷ live) t i a
      placed t i a (inr (j, other)) = old t i a j
      placed t i a (inl (e, f, j)) = elim (one_of a (q s idx) j) [
        | inl k ↦ rw (e, f) (old s idx a k)
        | inr x ↦ place_new t i a e f x
      ]

      keeps : (a : ℕ) (xs : List ℕ) → a ∈ xs → a ∈ (xs ++ (slot ∷ []))
      keeps a xs i = ground (arith, has-append a xs (slot ∷ []))

      last : (xs : List ℕ) → slot ∈ (xs ++ (slot ∷ []))
      last xs = ground (arith, has-append slot xs (slot ∷ []))

      found_self :
          (id : ℕ) → (b.heap slot).id ≡ id → IsFound c (with_side s (write (q s) idx new) q) id slot
      found_self id e = record {
        same_id = ap (λ x. x.id) (out.1 slot) ∙ e;
        queued = rw (self.side, self.index) (with_side-has s q idx slot new (last (q s idx)));
      }

      found :
          (id a : ℕ)
          → ((a ≡ slot) × ((b.heap slot).id ≡ id)) ⊎ IsFound b q id a
          → IsFound c (with_side s (write (q s) idx new) q) id a
      found id a (inl (e, x)) = rw e (found_self id x)
      found id a (inr k) =
          IsFound-same b c q (with_side s (write (q s) idx new) q) id a k (out.1 a) refl
            (λ t i j. with_side-has_old s t q idx i a new j (keeps a (q s idx)))
