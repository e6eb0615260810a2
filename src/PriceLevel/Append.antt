-- ===== src/PriceLevel/Append.antt =====
-- `addOrder` of price_level.hpp against queues.
use ultra_low_latency_orderb.Prelude.{
  ℕ, ◌+◌, ◌%◌, ◌^◌, ◌≡◌, refl, sym, none, some, List, [], ◌∷◌, ◌++◌, arith, points_at, ◌∉◌, head?,
  last_or, last?, false, last_or-append_one, Distinct-append_one, ==_true, ==_false, length-append,
}
use ultra_low_latency_orderb.PriceLevel.{Heap, PriceLevel, add_order}
use ultra_low_latency_orderb.PriceLevel.Links.{
  SameData, add_order-next, add_order-prev, add_order-SameData,
}
use ultra_low_latency_orderb.PriceLevel.Fifo.{Links-append_one}
use ultra_low_latency_orderb.PriceLevel.Queue.{
  IsQueue, quantity_sum_frame, quantity_sum-append_one, data-quantity, last?-ne, ne_of_points_at,
}

-- The fields that `addOrder` writes in the level.
add_order_total :
    (h : Heap) (l : PriceLevel) (a : ℕ)
    → (add_order h l (some a)).1.total_quantity ≡ (l.total_quantity + (h a).quantity) % 2 ^ 64
unfolding add_order
add_order_total h l a = ground arith

add_order_count :
    (h : Heap) (l : PriceLevel) (a : ℕ)
    → (add_order h l (some a)).1.order_count ≡ (l.order_count + 1) % 2 ^ 64
unfolding add_order
add_order_count h l a = refl

add_order_head :
    (h : Heap) (l : PriceLevel) (xs : List ℕ) (a : ℕ)
    → l.head ≡ head? xs
    → l.tail ≡ last? xs
    → (add_order h l (some a)).1.head ≡ head? (xs ++ (a ∷ []))
unfolding add_order
add_order_head h l [] a e f = rw f
add_order_head h l (x ∷ []) a e f = rw f e
add_order_head h l (x ∷ (y ∷ r)) a e f = ground (arith, last_or_some y r)
  where
    last_or_some : (y : ℕ) (r : List ℕ) → (b : ℕ) × (last_or (some y) r ≡ some b)
    last_or_some y [] = (y, refl)
    last_or_some y (z ∷ r) = last_or_some z r

add_order_tail : (h : Heap) (l : PriceLevel) (a : ℕ) → (add_order h l (some a)).1.tail ≡ some a
unfolding add_order
add_order_tail h l a = refl

-- `addOrder` puts an order that is not yet in the level behind all that are: the level then holds
-- the queue with the order at its end, and no order's data changes.
pub add_order-IsQueue :
    (h : Heap) (l : PriceLevel) (xs : List ℕ) (a : ℕ)
    → IsQueue h l xs
    → a ∉ xs
    → let (g, m) = add_order h l (some a) in IsQueue g m (xs ++ (a ∷ [])) × SameData h g
add_order-IsQueue h l xs a v out =
    let apart : points_at l.tail a ≡ false = rw v.tail (last?-ne xs a out) in
    let next = λ (b : ℕ). add_order-next h l a b (ne_of_points_at l.tail a apart) in
    let prev = add_order-prev h l a in
    (
      record {
        links =
            Links-append_one h (add_order h l (some a)).0 a l.tail
              (rw (prev a, ==_true a a refl) refl) (rw (next a, ==_true a a refl) refl)
              (λ b ne. rw (next b, ==_false b a ne) refl)
              (λ b ne. rw (prev b, ==_false b a ne) refl) none xs v.links v.distinct out
              (sym v.tail);
        distinct = Distinct-append_one xs a v.distinct out;
        head = add_order_head h l xs a v.head v.tail;
        tail = rw (add_order_tail h l a, last_or-append_one none xs a) refl;
        total = omega (
          arith,
          add_order_total h l a,
          quantity_sum_frame h (add_order h l (some a)).0 (xs ++ (a ∷ []))
              (λ b i. data-quantity h (add_order h l (some a)).0 b (add_order-SameData h l a)),
          quantity_sum-append_one h xs a,
          v.total,
        );
        count = omega (arith, add_order_count h l a, length-append xs (a ∷ []), v.count);
      },
      add_order-SameData h l a,
    )
